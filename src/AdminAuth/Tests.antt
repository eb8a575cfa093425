-- ===== src/AdminAuth/Tests.antt =====
-- Runs of src/adminauth, and the theorems at concrete inputs.
use business2api.Base.{◌≡◌, refl, true, false, none, some, arith, length, if◌then◌else◌, pos, null}
use business2api.Text.{Text, codes, eqb, eqb_refl, trim_space, drop_space, is_space}
use business2api.AdminAuth.Sessions.{SessionManager, new_session_manager, create, validate}
use business2api.AdminAuth.Store.{
  Store, CredentialRecord, holds, Bcrypt, verify, change_password, is_usable, not_saved,
}
use business2api.AdminAuth.Passwords.{IsAccepted, change_password-verify}

abbrev manager : SessionManager
manager = new_session_manager (pos 50)

abbrev signed_in : SessionManager
signed_in = (create (some (codes "t")) (codes "admin") 20 manager).0

is_over : (validate (codes "t") 80 signed_in).1 ≡ none
unfolding validate create new_session_manager eqb
is_over = refl

-- The hash is the password itself.
abbrev plain : Bcrypt
plain = record { generate = λ p. some p; matches = λ h p. eqb h p; byte_length = λ p. length p }

plain_matches : (p h : Text) → plain.generate p ≡ some h → plain.matches h p ≡ true
plain_matches p h e = ground (arith, eqb_refl p)

abbrev old : CredentialRecord
old = record {
  version = 1;
  username = codes "admin";
  password_hash = codes "admin123";
  updated_at = 1;
}

abbrev store : Store
store = record { cached = old; disk = holds old }

new-IsAccepted : IsAccepted plain (codes " secret ") (codes "secret")
unfolding trim_space drop_space is_space
new-IsAccepted = record { long = refl; hashed = refl }

admin_name : trim_space (codes "admin") ≡ codes "admin"
unfolding trim_space drop_space is_space
admin_name = refl

change_password-verify_example :
    (verify plain
        (codes "admin")
        (trim_space (codes " secret "))
        (change_password plain false 9 (codes " secret ") store).0
      ≡ true)
    × ((change_password plain false 9 (codes " secret ") store).1
        ≡ (if false then none else some not_saved))
change_password-verify_example =
    change_password-verify plain 9 (codes " secret ") (codes "secret") store new-IsAccepted false
      plain_matches admin_name

secret_solid : null (trim_space (codes "secret")) ≡ false
unfolding trim_space drop_space is_space
secret_solid = refl

old_usable : is_usable plain old ≡ true
unfolding is_usable trim_space drop_space is_space
old_usable = refl
