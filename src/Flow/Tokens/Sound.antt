-- ===== src/Flow/Tokens/Sound.antt =====
-- src/flow/token_pool.go: what holds of the pool and the client's copy of it after any events.
use business2api.Base.{
  ℕ, ◌+◌, ◌==◌, ◌<◌, ◌≡◌, refl, sym, subst, Bool, true, false, List, [], ◌∷◌, Option, none, some,
  arith, if◌then◌else◌, null, Option-cases, Bool-cases, inl, inr,
}
use business2api.Text.{
  Text, StringMap, eqb, eqb_iff, eqb_refl, find_entry, find_entry-set_entry,
  find_entry-delete_entry, delete_entry,
}
use business2api.Flow.{TokenPool, FlowToken, insert_token, add_token, new_token}
use business2api.Flow.Tokens.{
  extract_session_token, load_file, add_from_cookie, remove_token, load_token_from_file,
  remove_token_by_file, drop_old, index_token, token_file, save_token_to_file,
}
use business2api.Flow.Tokens.Events.{
  Op, load, add, remove, file_written, file_removed, edit, apply, run,
}

module _ (md5 : Text → Text) (can_write can_remove : Text → Bool) where
  -- The token that the pool has under an identifier: it carries this identifier, which is the digest
  -- of its session token, and it was allocated.
  abbrev pub OwnedAt : (ℕ → FlowToken) → ℕ → Text → Option ℕ → Type 0
  OwnedAt heap fresh id none = Unit
  OwnedAt heap fresh id (some p) =
      ((heap p).id ≡ id) × (md5 (heap p).st ≡ id) × (null (heap p).st ≡ false) × (p < fresh)

  -- The client, where there is one, has the same token under the identifier.
  abbrev pub HeldAt : Option (StringMap ℕ) → Text → Option ℕ → Type 0
  HeldAt client id none = Unit
  HeldAt none id (some p) = Unit
  HeldAt (some tokens) id (some p) = find_entry id tokens ≡ some p

  pub record IsSound (pool : TokenPool) : Type 0 where
    pub owned : (id : Text) → OwnedAt pool.heap pool.next_pointer id (find_entry id pool.tokens)
    pub held : (id : Text) → HeldAt pool.client id (find_entry id pool.tokens)

  -- What holds of every token holds of the rest after one is deleted.
  delete-all :
      (P : Option ℕ → Type 0) (k id : Text) (tokens : StringMap ℕ)
      → P none
      → P (find_entry id tokens)
      → P (find_entry id (delete_entry k tokens))
  delete-all P k id tokens empty h =
      subst P (sym (find_entry-delete_entry k tokens id))
        (elim (Bool-cases (eqb k id)) [ inl same ↦ rw same empty | inr other ↦ rw other h ])

  delete-IsSound :
      (k : Text) (pool : TokenPool)
      → IsSound pool
      → IsSound (record pool { tokens = delete_entry k pool.tokens })
  delete-IsSound k pool h = record {
    owned =
        λ id. delete-all (OwnedAt pool.heap pool.next_pointer id) k id pool.tokens tt (h.owned id);
    held = λ id. delete-all (HeldAt pool.client id) k id pool.tokens tt (h.held id);
  }

  -- The token under another identifier stays where another one is allocated.
  old-OwnedAt :
      (heap : ℕ → FlowToken) (fresh : ℕ) (token : FlowToken) (id : Text) (o : Option ℕ)
      → OwnedAt heap fresh id o
      → OwnedAt (λ q. if fresh == q then token else heap q) (fresh + 1) id o
  old-OwnedAt heap fresh token id none h = tt
  old-OwnedAt heap fresh token id (some p) (same, digest, solid, below) =
      let other : (fresh == p) ≡ false = ground (arith, below) in
      rw other (same, digest, solid, omega (arith, below))

  new-OwnedAt :
      (heap : ℕ → FlowToken) (fresh : ℕ) (id st : Text)
      → null st ≡ false
      → md5 st ≡ id
      → OwnedAt (λ q. if fresh == q then new_token id st else heap q) (fresh + 1) id (some fresh)
  unfolding new_token
  new-OwnedAt heap fresh id st solid digest =
      let here : (fresh == fresh) ≡ true = ground arith in
      rw here (refl, digest, solid, omega arith)

  old-HeldAt :
      (client : Option (StringMap ℕ)) (k id : Text) (p : ℕ) (o : Option ℕ)
      → eqb k id ≡ false
      → HeldAt client id o
      → HeldAt (add_token k p client) id o
  unfolding add_token
  old-HeldAt client k id p none other h = tt
  old-HeldAt none k id p (some q) other h = tt
  old-HeldAt (some tokens) k id p (some q) other h =
      rw (find_entry-set_entry k p tokens id) (rw other h)

  new-HeldAt :
      (client : Option (StringMap ℕ)) (id : Text) (p : ℕ)
      → HeldAt (add_token id p client) id (some p)
  unfolding add_token
  new-HeldAt none id p = tt
  new-HeldAt (some tokens) id p = rw (find_entry-set_entry id p tokens id) (rw (eqb_refl id) refl)

  insert_token-IsSound :
      (id st : Text) (pool : TokenPool)
      → null st ≡ false
      → md5 st ≡ id
      → IsSound pool
      → IsSound (insert_token id st pool)
  unfolding insert_token
  insert_token-IsSound id st pool solid digest h =
      let fresh = pool.next_pointer in
      let token = new_token id st in
      let found = λ (q : Text). find_entry-set_entry id fresh pool.tokens q in
      record {
        owned = λ q.
            subst (OwnedAt (λ p. if fresh == p then token else pool.heap p) (fresh + 1) q)
              (sym (found q))
              (elim (Bool-cases (eqb id q)) [
                | inl same ↦
                    let at : id ≡ q = (eqb_iff id q).0 same in
                    rw same (
                      subst
                        (λ r.
                          OwnedAt (λ p. if fresh == p then token else pool.heap p) (fresh + 1) r
                            (some fresh))
                        at (new-OwnedAt pool.heap fresh id st solid digest))
                | inr other ↦ rw other (old-OwnedAt pool.heap fresh token q _ (h.owned q))
              ]);
        held = λ q.
            subst (HeldAt (add_token id fresh pool.client) q) (sym (found q))
              (elim (Bool-cases (eqb id q)) [
                | inl same ↦
                    let at : id ≡ q = (eqb_iff id q).0 same in
                    rw same (
                      subst (λ r. HeldAt (add_token id fresh pool.client) r (some fresh)) at
                        (new-HeldAt pool.client id fresh))
                | inr other ↦ rw other (old-HeldAt pool.client id q fresh _ other (h.held q))
              ]);
      }

  load_file-IsSound :
      (name : Text) (pool : TokenPool)
      → IsSound pool
      → IsSound (load_file md5 can_write can_remove name pool).0
  unfolding load_file
  load_file-IsSound name pool h = elim (Option-cases (pool.files name)) [
    | inl missing ↦ rw (missing, load_file) h
    | inr (content, read) ↦
        let st = extract_session_token content in
        elim (Bool-cases (null st)) [
          | inl empty ↦ rw (read, load_file) (rw (empty, load_file) h)
          | inr solid ↦
              rw (read, load_file)
                (rw (solid, load_file)
                  (elim (Option-cases (find_entry (md5 st) pool.tokens)) [
                    | inl absent ↦
                        rw (absent, load_file) (insert_token-IsSound (md5 st) st pool solid refl h)
                    | inr (p, there) ↦ rw (there, load_file) h
                  ]))
        ]
  ]

  save-IsSound :
      (id cookie : Text) (pool : TokenPool)
      → IsSound pool
      → IsSound (save_token_to_file md5 can_write can_remove id cookie pool)
  unfolding save_token_to_file
  save-IsSound id cookie pool h =
      elim (Bool-cases (can_write (token_file md5 can_write can_remove id))) [
        | inl can ↦ rw (can, save_token_to_file) record { owned = h.owned; held = h.held }
        | inr cannot ↦ rw (cannot, save_token_to_file) h
      ]

  add_from_cookie-IsSound :
      (cookie : Text) (pool : TokenPool)
      → IsSound pool
      → IsSound (add_from_cookie md5 can_write can_remove cookie pool).0
  unfolding add_from_cookie
  add_from_cookie-IsSound cookie pool h =
      let st = extract_session_token cookie in
      elim (Bool-cases (null st)) [
        | inl empty ↦ rw (empty, add_from_cookie) h
        | inr solid ↦
            rw (solid, add_from_cookie)
              (elim (Option-cases (find_entry (md5 st) pool.tokens)) [
                | inl absent ↦
                    let joined = insert_token-IsSound (md5 st) st pool solid refl h in
                    rw (absent, add_from_cookie)
                      (save-IsSound (md5 st) cookie (insert_token (md5 st) st pool) joined)
                | inr (p, there) ↦ rw (there, add_from_cookie) h
              ])
      ]

  remove_token-IsSound :
      (id : Text) (listing : List Text) (pool : TokenPool)
      → IsSound pool
      → IsSound (remove_token md5 can_write can_remove id listing pool).0
  unfolding remove_token
  remove_token-IsSound id listing pool h = elim (Option-cases (find_entry id pool.tokens)) [
    | inl absent ↦ rw (absent, remove_token) h
    | inr (p, there) ↦
        let rest = delete-IsSound id pool h in
        rw (there, remove_token) record { owned = rest.owned; held = rest.held }
  ]

  index_token-IsSound :
      (name st : Text) (pool : TokenPool)
      → null st ≡ false
      → IsSound pool
      → IsSound (index_token md5 can_write can_remove name (md5 st) st pool)
  unfolding index_token
  index_token-IsSound name st pool solid h = elim (Option-cases (find_entry (md5 st) pool.tokens)) [
    | inl absent ↦
        let joined = insert_token-IsSound (md5 st) st pool solid refl h in
        rw (absent, index_token) record { owned = joined.owned; held = joined.held }
    | inr (p, there) ↦ rw (there, index_token) h
  ]

  written-IsSound :
      (name : Text) (pool : TokenPool)
      → IsSound pool
      → IsSound (load_token_from_file md5 can_write can_remove name pool)
  unfolding load_token_from_file drop_old
  written-IsSound name pool h = elim (Option-cases (pool.files name)) [
    | inl missing ↦ rw (missing, load_token_from_file) h
    | inr (content, read) ↦
        let st = extract_session_token content in
        elim (Bool-cases (null st)) [
          | inl empty ↦ rw (read, load_token_from_file) (rw (empty, load_token_from_file) h)
          | inr solid ↦
              rw (read, load_token_from_file)
                (rw (solid, load_token_from_file)
                  (elim (Option-cases (find_entry name pool.file_index)) [
                    | inl new ↦
                        rw (new, load_token_from_file) (index_token-IsSound name st pool solid h)
                    | inr (old, known) ↦
                        rw (known, load_token_from_file)
                          (elim (Bool-cases (eqb old (md5 st))) [
                            | inl same ↦ rw (same, load_token_from_file) h
                            | inr other ↦
                                rw (other, load_token_from_file)
                                  (index_token-IsSound name st
                                    (drop_old md5 can_write can_remove name old pool) solid
                                    (delete-IsSound old pool h))
                          ])
                  ]))
        ]
  ]

  removed-IsSound :
      (name : Text) (pool : TokenPool)
      → IsSound pool
      → IsSound (remove_token_by_file md5 can_write can_remove name pool)
  unfolding remove_token_by_file
  removed-IsSound name pool h = elim (Option-cases (find_entry name pool.file_index)) [
    | inl absent ↦ rw (absent, remove_token_by_file) h
    | inr (id, known) ↦
        let rest = delete-IsSound id pool h in
        rw (known, remove_token_by_file) record { owned = rest.owned; held = rest.held }
  ]

  apply-IsSound :
      (op : Op) (pool : TokenPool) → IsSound pool → IsSound (apply md5 can_write can_remove op pool)
  unfolding apply
  apply-IsSound (load name) pool h = load_file-IsSound name pool h
  apply-IsSound (add cookie) pool h = add_from_cookie-IsSound cookie pool h
  apply-IsSound (remove id listing) pool h = remove_token-IsSound id listing pool h
  apply-IsSound (file_written name) pool h = written-IsSound name pool h
  apply-IsSound (file_removed name) pool h = removed-IsSound name pool h
  apply-IsSound (edit name content) pool h = record { owned = h.owned; held = h.held }

  -- Where it held before, it holds after any sequence of files read, cookies added, tokens removed and
  -- files changed, that every token of the pool stands under the digest of its session token, which is
  -- not empty, that it carries this digest as its identifier, so that no token stands under two of
  -- them, and that the client, if there is one, has the same token under it.
  pub run-IsSound :
      (ops : List Op) (pool : TokenPool)
      → IsSound pool
      → IsSound (run md5 can_write can_remove ops pool)
  unfolding run
  run-IsSound [] pool h = h
  run-IsSound (op ∷ ops) pool h =
      run-IsSound ops (apply md5 can_write can_remove op pool) (apply-IsSound op pool h)
