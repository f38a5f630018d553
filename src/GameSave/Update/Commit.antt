-- ===== src/GameSave/Update/Commit.antt =====
-- Carrying out a batch: what the container's blobs are afterwards.
use xgameruntime_rs.Base.{
  ℕ, ◌≡◌, ◌≢◌, refl, sym, ap, ◌∙◌, Option, none, some, Bool, true, false, not, List, [], ◌∷◌, ◌==◌,
  if◌then◌else◌, arith, Bool-cases, inl, inr, subst, ==_iff, is_listed,
}
use xgameruntime_rs.Results.{s_ok, e_fail}
use xgameruntime_rs.GameSave.Files.{FileSystem, FileLaws}
use xgameruntime_rs.GameSave.Update.{
  BlobWrite, UpdateState, meta_file, write_all, delete_all, write_display_name, is_empty, finish,
  commit, add_write, add_delete,
}
use xgameruntime_rs.GameSave.Update.Batch.{
  Change, sets, deletes, submit_changes, last_write, pending,
}

-- What a change makes of a blob's content.
abbrev pub applied : Option Change → Option (List ℕ) → Option (List ℕ)
applied none before = before
applied (some (sets content)) before = some content
applied (some deletes) before = none

-- Different names in a container are different files.
abbrev pub IsApart : {D : Type 0} → FileSystem D → ℕ → Type 0
IsApart {D} fs root = (a b : ℕ) → a ≢ b → fs.join root a ≢ fs.join root b

-- Whatever a removal removes is gone: none is refused.
abbrev pub IsRemovable : {D : Type 0} → FileSystem D → Type 0
IsRemovable {D} fs = (p : ℕ) (d : D) → fs.read p (fs.remove_file p d).1 ≡ none

-- A chain of steps that succeeded took its first step.
all_done :
    {D : Type 0} (b : Bool) (rest : Bool × D) (d : D)
    → (if b then rest else (false, d)).0 ≡ true
    → (b ≡ true) × (rest.0 ≡ true)
all_done true rest d e = (refl, e)
all_done false rest d e = cc

abbrev no_content : Option (List ℕ)
no_content = none

if-same : (b : Bool) → (if b then no_content else no_content) ≡ no_content
if-same true = refl
if-same false = refl

abbrev written : Option (List ℕ) → Option Change
written none = none
written (some content) = some (sets content)

written-last :
    (b : Bool) (o before : Option (List ℕ)) (content : List ℕ)
    → applied (written o) (if b then some content else before)
      ≡ applied
          (written (elim o [ some c ↦ some c | none ↦ if b then some content else none ]))
          before
written-last true none before content = refl
written-last false none before content = refl
written-last b (some c) before content = refl

pending-applied :
    (b : Bool) (o before : Option (List ℕ))
    → (if b then none else applied (written o) before)
      ≡ applied (if b then some deletes else elim o [ some c ↦ some (sets c) | none ↦ none ]) before
pending-applied true o before = refl
pending-applied false none before = refl
pending-applied false (some c) before = refl

-- Two checks in a row that both went well.
chain :
    {U D : Type 0} (made written : Bool) (u : U) (x y : D) (z : ℕ × U × D)
    → (if not made then (e_fail, u, x) else if not written then (e_fail, u, y) else z).0 ≡ s_ok
    → (written ≡ true)
      × ((if not made then (e_fail, u, x) else if not written then (e_fail, u, y) else z) ≡ z)
chain true true u x y z e = (refl, refl)
chain true false u x y z e = absurd (ground (arith, e))
chain false w u x y z e = absurd (ground (arith, e))

module _ {D : Type 0} (fs : FileSystem D) (laws : FileLaws fs) (root : ℕ)
    (apart : IsApart fs root) where
  -- The blob of that name in the container.
  abbrev pub blob : ℕ → D → Option (List ℕ)
  blob name d = fs.read (fs.join root name) d

  blob-write :
      (name n : ℕ) (b : List ℕ) (d : D)
      → (fs.write (fs.join root n) b d).0 ≡ true
      → blob name (fs.write (fs.join root n) b d).1 ≡ (if n == name then some b else blob name d)
  blob-write name n b d e = elim (Bool-cases (n == name)) [
    | inl same ↦ rw same (
        subst (λ x. blob x (fs.write (fs.join root n) b d).1 ≡ some b) ((==_iff n name).0 same)
          (laws.read-write (fs.join root n) b d e))
    | inr other ↦ rw other (
        laws.read-write_other (fs.join root n) (fs.join root name) b d
          (apart n name (ground (arith, other))))
  ]

  blob-write_all :
      (name : ℕ) (ws : List BlobWrite) (d : D)
      → (write_all fs root ws d).0 ≡ true
      → blob name (write_all fs root ws d).1 ≡ applied (written (last_write name ws)) (blob name d)
  unfolding write_all
  blob-write_all name [] d e = refl
  blob-write_all name (w ∷ ws) d e =
      let step = fs.write (fs.join root w.name) w.content d in
      let (done, rest) = all_done step.0 (write_all fs root ws step.1) step.1 e in
      rw done (
        blob-write_all name ws step.1 rest
        ∙ ap (applied (written (last_write name ws))) (blob-write name w.name w.content d done)
        ∙ written-last (w.name == name) (last_write name ws) (blob name d) w.content)

  module _ (removable : IsRemovable fs) where
    blob-delete_all :
        (name : ℕ) (ns : List ℕ) (d : D)
        → blob name (delete_all fs root ns d) ≡ (if is_listed name ns then none else blob name d)
    unfolding delete_all
    blob-delete_all name [] d = refl
    blob-delete_all name (n ∷ ns) d = elim (Bool-cases (n == name)) [
      | inl same ↦ rw same (
          blob-delete_all name ns _
          ∙ ap (λ x. if is_listed name ns then none else x)
              (subst (λ x. blob x (fs.remove_file (fs.join root n) d).1 ≡ none)
                ((==_iff n name).0 same) (removable (fs.join root n) d))
          ∙ if-same (is_listed name ns))
      | inr other ↦ rw other (
          blob-delete_all name ns _
          ∙ ap (λ x. if is_listed name ns then none else x)
              (laws.read-remove_other (fs.join root n) (fs.join root name) d
                (apart n name (ground (arith, other)))))
    ]

    blob-display_name :
        (name : ℕ) (b : List ℕ) (d : D)
        → name ≢ meta_file
        → blob name (write_display_name fs root b d) ≡ blob name d
    unfolding write_display_name
    blob-display_name name b d ne =
        laws.read-write_other (fs.join root meta_file) (fs.join root name) b d
          (apart meta_file name (λ e. ne (sym e)))

module _ {D : Type 0} (fs : FileSystem D) (laws : FileLaws fs) (removable : IsRemovable fs)
    (u : UpdateState) (apart : IsApart fs u.container_root) where
  blob-finish :
      (name : ℕ) (d : D)
      → name ≢ meta_file
      → blob fs laws u.container_root apart name (finish fs u d).2
        ≡ (if is_listed name u.deletes then none else blob fs laws u.container_root apart name d)
  unfolding finish
  blob-finish name d ne = elim (Bool-cases (is_empty u.display_name)) [
    | inl e ↦ rw e (blob-delete_all fs laws u.container_root apart removable name u.deletes d)
    | inr e ↦ rw e (
        blob-display_name fs laws u.container_root apart removable name u.display_name _ ne
        ∙ blob-delete_all fs laws u.container_root apart removable name u.deletes d)
  ]

  commit_ok :
      (d : D)
      → (commit fs u d).0 ≡ s_ok
      → let d₁ = (fs.create_dir_all u.container_root d).1 in
        let (written, d₂) = write_all fs u.container_root u.writes d₁ in
        (written ≡ true) × (commit fs u d ≡ finish fs u d₂)
  unfolding commit
  commit_ok d e =
      let (made, d₁) = fs.create_dir_all u.container_root d in
      let (written, d₂) = write_all fs u.container_root u.writes d₁ in
      chain made written u d₁ d₂ (finish fs u d₂) e

  -- Carrying out a batch on its container.
  pub blob-commit :
      (name : ℕ) (d : D)
      → name ≢ meta_file
      → (commit fs u d).0 ≡ s_ok
      → fs.read (fs.join u.container_root name) (commit fs u d).2
        ≡ applied (pending name u) (fs.read (fs.join u.container_root name) d)
  blob-commit name d ne e =
      let root = u.container_root in
      let d₁ = (fs.create_dir_all root d).1 in
      let (done, whole) = commit_ok d e in
      rw whole (
        blob-finish name (write_all fs root u.writes d₁).1 ne
        ∙ ap (λ x. if is_listed name u.deletes then none else x)
            (blob-write_all fs laws root apart name u.writes d₁ done
              ∙ ap (applied (written (last_write name u.writes)))
                  (laws.read-create root (fs.join root name) d))
        ∙ pending-applied (is_listed name u.deletes) (last_write name u.writes) _)

  pub commit-cleared :
      (name : ℕ) (d : D) → (commit fs u d).0 ≡ s_ok → pending name (commit fs u d).1 ≡ none
  commit-cleared name d e = rw (commit_ok d e).1 (unfold finish in refl)

pub container_root-submit_changes :
    (cs : List (ℕ × Change)) (u : UpdateState)
    → (submit_changes cs u).container_root ≡ u.container_root
container_root-submit_changes [] u = refl
container_root-submit_changes ((n, sets c) ∷ cs) u =
    container_root-submit_changes cs (add_write n c u) ∙ unfold add_write in refl
container_root-submit_changes ((n, deletes) ∷ cs) u =
    container_root-submit_changes cs (add_delete n u) ∙ unfold add_delete in refl
