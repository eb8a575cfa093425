-- ===== src/AdminAuth/Passwords.antt =====
-- src/adminauth/store.go: what a change of the password means for the next sign-in and the next start.
use business2api.Base.{ℕ, ◌≡◌, refl, Bool, true, false, none, some, arith, ltb, null, if◌then◌else◌}
use business2api.Text.{Text, eqb_refl, trim_space}
use business2api.AdminAuth.Store.{
  Store, holds, not_saved, Bcrypt, verify, store_password, change_password, load_or_init, is_usable,
}

-- The new password is long enough and bcrypt takes it.
pub record IsAccepted (lib : Bcrypt) (password hash : Text) : Type 0 where
  pub long : ltb (lib.byte_length (trim_space password)) 6 ≡ false
  pub hashed : lib.generate (trim_space password) ≡ some hash

module _ (lib : Bcrypt) (now : ℕ) (password hash : Text) (store : Store)
    (ok : IsAccepted lib password hash) where
  accepted_change :
      (saves : Bool)
      → change_password lib saves now password store ≡ store_password lib saves now hash store
  unfolding change_password
  accepted_change saves = rw (ok.long, ok.hashed, change_password) refl

  stored :
      (saves : Bool)
      → trim_space store.cached.username ≡ store.cached.username
      → lib.matches hash (trim_space password) ≡ true
      → (verify lib store.cached.username
            (trim_space password)
            (store_password lib saves now hash store).0
          ≡ true)
        × ((store_password lib saves now hash store).1 ≡ (if saves then none else some not_saved))
  unfolding verify store_password
  stored true named m = (rw (named, eqb_refl store.cached.username) m, refl)
  stored false named m = (rw (named, eqb_refl store.cached.username) m, refl)

  restarted :
      (saves renames saves' : Bool) (later : ℕ) (fresh : Store)
      → null (trim_space hash) ≡ false
      → store.disk ≡ holds store.cached
      → is_usable lib store.cached ≡ true
      → (load_or_init lib renames saves' later
          (record fresh { disk = (store_password lib saves now hash store).0.disk })).0.cached
        ≡ (if saves then (store_password lib saves now hash store).0.cached else store.cached)
  unfolding load_or_init store_password is_usable
  restarted true renames saves' later fresh solid kept usable = ground arith
  restarted false renames saves' later fresh solid kept usable = rw kept (rw usable refl)

  -- A new password that is long enough and that bcrypt takes signs the administrator, whose stored
  -- name has no white space around it, in at once, even if the file could not be written and the
  -- change is reported as failed.
  pub change_password-verify :
      (saves : Bool)
      → ((p h : Text) → lib.generate p ≡ some h → lib.matches h p ≡ true)
      → trim_space store.cached.username ≡ store.cached.username
      → let r = change_password lib saves now password store in
        (verify lib store.cached.username (trim_space password) r.0 ≡ true)
        × (r.1 ≡ (if saves then none else some not_saved))
  change_password-verify saves matches_own named =
      rw (accepted_change saves)
        (stored saves named (matches_own (trim_space password) hash ok.hashed))

  -- Where the file held the usable record that was in force and the new hash is not blank, the record
  -- in force after a restart is the one of the change if it was reported as done, and else the one
  -- that the file held before.
  pub load_or_init-change_password :
      (saves renames saves' : Bool) (later : ℕ) (fresh : Store)
      → null (trim_space hash) ≡ false
      → store.disk ≡ holds store.cached
      → is_usable lib store.cached ≡ true
      → let r = change_password lib saves now password store in
        (load_or_init lib renames saves' later (record fresh { disk = r.0.disk })).0.cached
        ≡ (if saves then r.0.cached else store.cached)
  load_or_init-change_password saves renames saves' later fresh solid kept usable =
      rw (accepted_change saves) (restarted saves renames saves' later fresh solid kept usable)
