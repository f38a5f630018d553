-- ===== src/GameSave/Object/Session.antt =====
-- A title's session with an update: create it, submit changes, carry it out, and read the blobs.
use xgameruntime_rs.Base.{
  ℕ, ◌+◌, ◌≡◌, ◌≢◌, refl, sym, ap, ◌∙◌, arith, Option, none, some, false, List, [], ◌∷◌, length,
  ==_refl, subst,
}
use xgameruntime_rs.Base.Heap.{update}
use xgameruntime_rs.HandleTable.{get, create}
use xgameruntime_rs.HandleTable.Laws.{IsValid, get-create}
use xgameruntime_rs.Results.{s_ok}
use xgameruntime_rs.GameSave.Files.{FileSystem, FileLaws}
use xgameruntime_rs.GameSave.Storage.{or_empty}
use xgameruntime_rs.GameSave.Update.{new_update, meta_file, commit}
use xgameruntime_rs.GameSave.Update.Batch.{
  Change, sets, deletes, submit_change, submit_changes, last_change, pending,
  pending-submit_changes,
}
use xgameruntime_rs.GameSave.Update.Commit.{
  applied, IsApart, IsRemovable, blob-commit, commit-cleared, container_root-submit_changes,
}
use xgameruntime_rs.GameSave.Object.{GameSaves}
use xgameruntime_rs.GameSave.Object.Updates.{
  data_bytes, create_update, submit_blob_write, submit_blob_delete, submit_update,
}

module _ {D : Type 0} (fs : FileSystem D) where
  -- One change through the interface.
  abbrev pub submit_one : ℕ → ℕ × Change → GameSaves D → GameSaves D
  submit_one h (name, sets bytes) s =
      (submit_blob_write fs h (some name) (some (λ n. bytes)) (length bytes) s).1
  submit_one h (name, deletes) s = (submit_blob_delete fs h (some name) s).1

  abbrev pub submit_all : ℕ → List (ℕ × Change) → GameSaves D → GameSaves D
  submit_all h [] s = s
  submit_all h (c ∷ cs) s = submit_all h cs (submit_one h c s)

  -- A new update, and changes submitted through its handle.
  abbrev pub prepared : ℕ → Option (List ℕ) → List (ℕ × Change) → GameSaves D → GameSaves D
  prepared container display_name cs s =
      submit_all s.updates.next cs (create_update fs container display_name false s).1

  bytes-data_bytes : (bytes : List ℕ) → data_bytes (some (λ n. bytes)) (length bytes) ≡ some bytes
  unfolding data_bytes
  bytes-data_bytes [] = refl
  bytes-data_bytes (b ∷ bs) = ground arith

  -- What submitting leaves as it was, and what it makes of the batch.
  record Submitted (h ref : ℕ) (cs : List (ℕ × Change)) (s t : GameSaves D) : Type 0 where
    updates : t.updates ≡ s.updates
    disk : t.disk ≡ s.disk
    batch : t.batches ref ≡ submit_changes cs (s.batches ref)

  submit_batch :
      (h ref name : ℕ) (c : Change) (s : GameSaves D)
      → get s.updates h ≡ some ref
      → submit_one h (name, c) s
        ≡ record s { batches = update s.batches ref (submit_change name c (s.batches ref)) }
  unfolding submit_blob_write submit_blob_delete
  submit_batch h ref name (sets bytes) s e = ground (arith, e, bytes-data_bytes bytes)
  submit_batch h ref name deletes s e = ground (arith, e)

  submit_all-Submitted :
      (h ref : ℕ) (cs : List (ℕ × Change)) (s : GameSaves D)
      → get s.updates h ≡ some ref
      → Submitted h ref cs s (submit_all h cs s)
  submit_all-Submitted h ref [] s e = record { updates = refl; disk = refl; batch = refl }
  submit_all-Submitted h ref ((name, c) ∷ cs) s e =
      let one = submit_batch h ref name c s e in
      let rest =
        submit_all-Submitted h ref cs (submit_one h (name, c) s)
          (ap (λ t. get t.updates h) one ∙ e) in
      record {
        updates = rest.updates ∙ ap (λ t. t.updates) one;
        disk = rest.disk ∙ ap (λ t. t.disk) one;
        batch =
            rest.batch
            ∙ ap (submit_changes cs) (ap (λ t. t.batches ref) one ∙ rw (==_refl ref) refl);
      }

  create_update_open :
      (container root : ℕ) (display_name : Option (List ℕ)) (s : GameSaves D)
      → get s.containers container ≡ some root
      → (create_update fs container display_name false s).1 ≡ record s {
        updates = (create s.updates s.next_batch).1;
        batches = update s.batches s.next_batch (new_update root (or_empty display_name));
        next_batch = s.next_batch + 1;
      }
  unfolding create_update
  create_update_open container root display_name s e = ground (arith, e)

  -- What a new update and changes submitted through its handle leave.
  record Prepared (root : ℕ) (display_name : List ℕ) (cs : List (ℕ × Change)) (s t : GameSaves D)
      : Type 0 where
    found : get t.updates s.updates.next ≡ some s.next_batch
    disk : t.disk ≡ s.disk
    batch : t.batches s.next_batch ≡ submit_changes cs (new_update root display_name)

  prepared-Prepared :
      (container root : ℕ) (display_name : Option (List ℕ)) (cs : List (ℕ × Change))
      (s : GameSaves D)
      → IsValid s.updates
      → get s.containers container ≡ some root
      → Prepared root (or_empty display_name) cs s (prepared container display_name cs s)
  prepared-Prepared container root display_name cs s valid e =
      let h = s.updates.next in
      let s₁ = (create_update fs container display_name false s).1 in
      let made = create_update_open container root display_name s e in
      let found : get s₁.updates h ≡ some s.next_batch =
        ap (λ t. get t.updates h) made
        ∙ (get-create s.updates s.next_batch h valid).0
        ∙ rw (==_refl h) refl in
      let rest = submit_all-Submitted h s.next_batch cs s₁ found in
      record {
        found = ap (λ t. get t h) rest.updates ∙ found;
        disk = rest.disk ∙ ap (λ t. t.disk) made;
        batch =
            rest.batch
            ∙ ap (submit_changes cs)
                (ap (λ t. t.batches s.next_batch) made ∙ rw (==_refl s.next_batch) refl);
      }

  submit_update_found :
      (h ref : ℕ) (t : GameSaves D)
      → get t.updates h ≡ some ref
      → submit_update fs h t ≡ (
        (commit fs (t.batches ref) t.disk).0,
        record t {
          batches = update t.batches ref (commit fs (t.batches ref) t.disk).1;
          disk = (commit fs (t.batches ref) t.disk).2;
        },
      )
  unfolding submit_update
  submit_update_found h ref t e = ground (arith, e)

module _ {D : Type 0} (fs : FileSystem D) (laws : FileLaws fs) (removable : IsRemovable fs)
    (container root : ℕ) (apart : IsApart fs root) where
  committed :
      (display_name : List ℕ) (cs : List (ℕ × Change)) (d : D) (name : ℕ)
      → name ≢ meta_file
      → (commit fs (submit_changes cs (new_update root display_name)) d).0 ≡ s_ok
      → let c = commit fs (submit_changes cs (new_update root display_name)) d in
        (fs.read (fs.join root name) c.2
          ≡ applied (last_change name none cs) (fs.read (fs.join root name) d))
        × (pending name c.1 ≡ none)
  unfolding new_update
  committed display_name cs d name ne ok =
      let u = submit_changes cs (new_update root display_name) in
      let same : u.container_root ≡ root =
        container_root-submit_changes cs (new_update root display_name) in
      let apart_u = subst (IsApart fs) (sym same) apart in
      let what : pending name u ≡ last_change name none cs =
        pending-submit_changes name cs (new_update root display_name) in
      (
        subst
            (λ r.
              fs.read (fs.join r name) (commit fs u d).2
              ≡ applied (last_change name none cs) (fs.read (fs.join r name) d))
            same
            (blob-commit fs laws removable u apart_u name d ne ok
              ∙ ap (λ c. applied c (fs.read (fs.join u.container_root name) d)) what),
        commit-cleared fs laws removable u apart_u name d ok,
      )

  -- Where different names are different files, and removals succeed: a title opens an update on a
  -- container, submits any changes through its handle, and submits the update, with `S_OK`. Then
  -- each blob, the reserved file aside, is what the last change submitted for it made it, and as it
  -- was if there was none, and the batch is empty.
  pub read-prepared :
      (display_name : Option (List ℕ)) (cs : List (ℕ × Change)) (s : GameSaves D) (name : ℕ)
      → IsValid s.updates
      → get s.containers container ≡ some root
      → name ≢ meta_file
      → (submit_update fs s.updates.next (prepared fs container display_name cs s)).0 ≡ s_ok
      → let t = (submit_update fs s.updates.next (prepared fs container display_name cs s)).1 in
        (fs.read (fs.join root name) t.disk
          ≡ applied (last_change name none cs) (fs.read (fs.join root name) s.disk))
        × (pending name (t.batches s.next_batch) ≡ none)
  read-prepared display_name cs s name valid open_ ne ok =
      let u = submit_changes cs (new_update root (or_empty display_name)) in
      let h = s.updates.next in
      let t = prepared fs container display_name cs s in
      let p = prepared-Prepared fs container root display_name cs s valid open_ in
      let whole = submit_update_found fs h s.next_batch t p.found in
      let c : commit fs (t.batches s.next_batch) t.disk ≡ commit fs u s.disk =
        ap (λ b. commit fs b t.disk) p.batch ∙ ap (commit fs u) p.disk in
      let (read, cleared) =
        committed (or_empty display_name) cs s.disk name ne
          (sym (ap (λ r. r.0) whole ∙ ap (λ r. r.0) c) ∙ ok) in
      (
        ap (λ r. fs.read (fs.join root name) r.1.disk) whole
            ∙ ap (λ r. fs.read (fs.join root name) r.2) c
            ∙ read,
        ap (λ r. pending name (r.1.batches s.next_batch)) whole
            ∙ rw (==_refl s.next_batch) (ap (λ r. pending name r.1) c ∙ cleared),
      )
