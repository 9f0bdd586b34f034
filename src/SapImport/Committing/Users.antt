-- ===== src/SapImport/Committing/Users.antt =====
-- A commit changes only the users of the changes that were selected.
use first_brief.Prelude.{
  ℕ, true, false, List, [], ◌∷◌, ◌++◌, String, ◌≡◌, ◌∙◌, refl, arith, inl, inr, Bool-cases, find,
  filter, All, update_where, str_eq, eq_iff,
}
use first_brief.Errors.{ok}
use first_brief.Identity.Model.{User}
use first_brief.SapImport.Model.{ImportChange, ImportedUser, Imports, Surroundings}
use first_brief.SapImport.Committing.{
  insert_change, in_order, is_selected, named, upserted, apply_change, write_change, apply_changes,
  commit_import, finish_commit, precedes,
}
use first_brief.SapImport.Committing.Laws.{commit-Committed}
use first_brief.SapImport.Staging.{audit_batch}

module _ {Bytes : Type 0} (x : Surroundings Bytes) (username : String) where
  -- A change of somebody else.
  abbrev pub Other : ImportChange → Type 0
  Other c = str_eq c.user_id username ≡ false

  find-update :
      (id : String) (f : ImportedUser → ImportedUser) (users : List ImportedUser)
      → str_eq id username ≡ false
      → ((u : ImportedUser) → str_eq u.username id ≡ true → str_eq (f u).username username ≡ false)
      → find (named username) (update_where (named id) f users) ≡ find (named username) users
  unfolding find update_where
  find-update id f [] other keeps = refl
  find-update id f (u ∷ users) other keeps =
      let rest = find-update id f users other keeps in
      elim (Bool-cases (named id u)) [
        | inl hit ↦
            let same : u.username ≡ id = (eq_iff u.username id).0 hit in
            let missed : named username u ≡ false = rw same other in
            ground (arith, rest, hit, missed, keeps u hit)
        | inr miss ↦ ground (arith, rest, miss)
      ]

  find-snoc :
      (v : ImportedUser) (users : List ImportedUser)
      → str_eq v.username username ≡ false
      → find (named username) (users ++ v ∷ []) ≡ find (named username) users
  unfolding find
  find-snoc v [] other = ground arith
  find-snoc v (u ∷ users) other = ground (arith, find-snoc v users other)

  apply_change-find :
      (c : ImportChange) (users : List ImportedUser)
      → Other c
      → find (named username) (apply_change x c users).0 ≡ find (named username) users
  unfolding apply_change
  apply_change-find c users other =
      let off =
        find-update c.user_id (λ u. record u { is_active = false }) users other
          (λ u hit. rw ((eq_iff u.username c.user_id).0 hit) other) in
      let up = find-update c.user_id (λ _. upserted x c) users other (λ u hit. other) in
      ground (arith, off, up, find-snoc (upserted x c) users other)

  apply_changes-find :
      (pk : ℕ) (cs : List ImportChange) (s : Imports) {s' : Imports}
      → All Other cs
      → apply_changes x pk cs s ≡ ok s'
      → find (named username) s'.users ≡ find (named username) s.users
  unfolding apply_changes
  apply_changes-find pk [] s others done = ground arith
  apply_changes-find pk (c ∷ cs) s {s'} (other, others) done =
      elim (Bool-cases (x.site_exists c.site_code)) [
        | inr gone ↦ ground arith
        | inl known ↦
            apply_changes-find pk cs (write_change x pk c (apply_change x c s.users) s) {s' = s'}
              others (ground arith)
            ∙ apply_change-find c s.users other
      ]

  All-insert_change :
      (c : ImportChange) (cs : List ImportChange)
      → Other c
      → All Other cs
      → All Other (insert_change c cs)
  unfolding insert_change
  All-insert_change c [] p h = (p, tt)
  All-insert_change c (d ∷ ds) p (q, qs) = elim (Bool-cases (precedes c d)) [
    | inl first ↦ rw first (p, (q, qs))
    | inr later ↦ rw later (q, All-insert_change c ds p qs)
  ]

  All-in_order : (cs : List ImportChange) → All Other cs → All Other (in_order cs)
  unfolding in_order
  All-in_order [] h = tt
  All-in_order (c ∷ cs) (p, ps) = All-insert_change c (in_order cs) p (All-in_order cs ps)

  -- A commit that succeeds leaves a user that no selected change of the batch names as it was,
  -- absent or with all its columns.
  pub commit_touches_selected :
      (actor : User) (pk : ℕ) (ids : List ℕ) (s : Imports) {s' : Imports}
      → All Other (filter (is_selected pk ids) s.changes)
      → commit_import x actor pk ids s ≡ ok s'
      → find (named username) s'.users ≡ find (named username) s.users
  unfolding finish_commit audit_batch
  commit_touches_selected actor pk ids s others done =
      let h = commit-Committed x actor pk ids s done in
      let kept = apply_changes-find pk _ s (All-in_order _ others) h.ran in
      ground (arith, h.finished, kept)
