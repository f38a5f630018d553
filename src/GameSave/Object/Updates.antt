-- ===== src/GameSave/Object/Updates.antt =====
-- src/com/xgamesave/object.rs, reading blobs, and the updates: batches of blob changes.
use xgameruntime_rs.Base.{
  ℕ, zero, suc, ◌+◌, ◌%◌, ◌^◌, Option, none, some, Bool, true, false, ◌||◌, List, [], ◌∷◌, ◌==◌,
  if◌then◌else◌, length, ltb,
}
use xgameruntime_rs.Base.Heap.{update}
use xgameruntime_rs.HandleTable.{create, get, close}
use xgameruntime_rs.Results.{
  Result, ok, err, s_ok, e_fail, e_invalidarg, e_pointer, e_not_sufficient_buffer,
}
use xgameruntime_rs.GameSave.Files.{FileSystem}
use xgameruntime_rs.GameSave.Storage.{or_empty}
use xgameruntime_rs.GameSave.Update.{UpdateState, new_update, add_write, add_delete, commit}
use xgameruntime_rs.GameSave.Object.{GameSaves}

-- `XGameSaveBlob`: the size as the title sees it, and the whole buffer.
pub record Blob : Type 0 where
  pub name : ℕ
  pub size : ℕ
  pub content : List ℕ

-- A read: the status, the entries of `blobData` that were written, and what was written to
-- `countOfBlobs`.
pub record Reading : Type 0 where
  pub status : ℕ
  pub blobs : List Blob
  pub count : Option ℕ

abbrev refused : ℕ → Reading
refused hr = record { status = hr; blobs = []; count = none }

-- The C strings of an array, from an index on.
unfoldable pub name_list : (ℕ → Option ℕ) → ℕ → ℕ → List (Option ℕ)
name_list names index zero = []
name_list names index (suc n) = names index ∷ name_list names (index + 1) n

-- What `XGameSaveSubmitBlobWrite` takes from its data pointer and byte count: null with a count
-- that is not 0 is refused, and no bytes are read for a count of 0.
unfoldable pub data_bytes : Option (ℕ → List ℕ) → ℕ → Option (List ℕ)
data_bytes memory byte_count =
    if byte_count == 0
    then some []
    else elim memory [ none ↦ none | some bytes ↦ some (bytes byte_count) ]

module _ {D : Type 0} (fs : FileSystem D) where
  -- The loop over the names.
  unfoldable pub read_blobs : ℕ → List (Option ℕ) → D → ℕ × List Blob
  read_blobs root [] d = (s_ok, [])
  read_blobs root (none ∷ names) d = (e_invalidarg, [])
  read_blobs root (some name ∷ names) d =
      let (hr, blobs) = read_blobs root names d in
      elim (fs.read (fs.join root name) d) [
        | none ↦ (e_fail, [])
        | some bytes ↦
            (hr, record { name = name; size = length bytes % 2 ^ 32; content = bytes } ∷ blobs)
      ]

  abbrev requested_blobs : ℕ → List (Option ℕ) → ℕ → D → Reading
  requested_blobs root names requested d =
      let (hr, blobs) = read_blobs root names d in
      record { status = hr; blobs = blobs; count = if hr == s_ok then some requested else none }

  -- `XGameSaveReadBlobData`. `names` is the array `blobNames`, `requested` what `countOfBlobs`
  -- holds, and `no_data` says that `blobData` is null.
  unfoldable pub read_blob_data :
      ℕ → Option (ℕ → Option ℕ) → Option ℕ → ℕ → Bool → GameSaves D → Reading
  unfolding read_blobs name_list get
  read_blob_data container names none blobs_size no_data s = refused e_pointer
  read_blob_data container names (some requested) blobs_size no_data s =
      elim (get s.containers container) [
        | none ↦ refused e_invalidarg
        | some root ↦ elim names [
          | none ↦ refused e_invalidarg
          | some array ↦
              if requested == 0
              then refused e_invalidarg
              else if ltb blobs_size requested || no_data
              then refused e_not_sufficient_buffer
              else requested_blobs root (name_list array 0 requested) requested s.disk
        ]
      ]

  abbrev pub is_missing : List (Option ℕ) → Bool
  is_missing [] = false
  is_missing (none ∷ names) = true
  is_missing (some name ∷ names) = is_missing names

  -- `XGameSaveReadBlobDataAsync`: the payload of its body.
  unfoldable pub read_blob_data_async : ℕ → (ℕ → Option ℕ) → ℕ → Result (ℕ × List (Option ℕ))
  unfolding name_list
  read_blob_data_async container array count =
      if is_missing (name_list array 0 count)
      then err e_invalidarg
      else ok (container, name_list array 0 count)

  abbrev counted : ℕ × List Blob → Reading
  counted r = record {
    status = r.0;
    blobs = r.1;
    count = if length r.1 == 0 then none else some (length r.1 % 2 ^ 32);
  }

  -- `XGameSaveReadBlobDataResult`; `payload` is what `get_result` gives.
  unfoldable pub read_blob_data_result :
      Result (ℕ × List (Option ℕ)) → ℕ → Bool → Bool → GameSaves D → Reading
  unfolding read_blobs get
  read_blob_data_result payload blobs_size no_data true s = refused e_pointer
  read_blob_data_result (err hr) blobs_size no_data false s = refused hr
  read_blob_data_result (ok payload) blobs_size no_data false s =
      elim (get s.containers payload.0) [
        | none ↦ refused e_invalidarg
        | some root ↦
            if ltb blobs_size (length payload.1) || no_data
            then refused e_not_sufficient_buffer
            else counted (read_blobs root payload.1 s.disk)
      ]

  unfoldable pub create_update : ℕ → Option (List ℕ) → Bool → GameSaves D → Result ℕ × GameSaves D
  unfolding get create new_update
  create_update container display_name true s = (err e_pointer, s)
  create_update container display_name false s = elim (get s.containers container) [
    | none ↦ (err e_invalidarg, s)
    | some root ↦
        let (handle, table) = create s.updates s.next_batch in
        (
          ok handle,
          record s {
            updates = table;
            batches = update s.batches s.next_batch (new_update root (or_empty display_name));
            next_batch = s.next_batch + 1;
          },
        )
  ]

  unfoldable pub close_update : ℕ → GameSaves D → GameSaves D
  unfolding close
  close_update context s = record s { updates = close s.updates context }

  abbrev set_batch : ℕ → UpdateState → GameSaves D → GameSaves D
  set_batch ref u s = record s { batches = update s.batches ref u }

  -- `memory` is what a number of bytes at `data` are, where `data` is not null.
  unfoldable pub submit_blob_write :
      ℕ → Option ℕ → Option (ℕ → List ℕ) → ℕ → GameSaves D → ℕ × GameSaves D
  unfolding get add_write data_bytes
  submit_blob_write update_context blob_name memory byte_count s =
      elim (get s.updates update_context) [
        | none ↦ (e_invalidarg, s)
        | some ref ↦ elim blob_name [
          | none ↦ (e_invalidarg, s)
          | some name ↦ elim (data_bytes memory byte_count) [
            | none ↦ (e_pointer, s)
            | some content ↦ (s_ok, set_batch ref (add_write name content (s.batches ref)) s)
          ]
        ]
      ]

  unfoldable pub submit_blob_delete : ℕ → Option ℕ → GameSaves D → ℕ × GameSaves D
  unfolding get add_delete
  submit_blob_delete update_context blob_name s = elim (get s.updates update_context) [
    | none ↦ (e_invalidarg, s)
    | some ref ↦ elim blob_name [
      | none ↦ (e_invalidarg, s)
      | some name ↦ (s_ok, set_batch ref (add_delete name (s.batches ref)) s)
    ]
  ]

  unfoldable pub submit_update : ℕ → GameSaves D → ℕ × GameSaves D
  unfolding get commit
  submit_update update_context s = elim (get s.updates update_context) [
    | none ↦ (e_invalidarg, s)
    | some ref ↦
        let (hr, u, d) = commit fs (s.batches ref) s.disk in
        (hr, record s { batches = update s.batches ref u; disk = d })
  ]
