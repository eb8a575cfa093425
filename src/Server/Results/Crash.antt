-- ===== src/Server/Results/Crash.antt =====
-- src/pool/pool_server.go, `updateAccountCookies`: the type assertions on what a client sends.
use business2api.Base.{
  ℕ, ◌≡◌, ◌↔◌, refl, Bool, true, false, ◌||◌, List, [], ◌∷◌, none, some, arith, Option-cases, inl,
  inr,
}
use business2api.Text.{Text}
use business2api.Pool.Account.{Settings}
use business2api.Pool.Worker.{Outside}
use business2api.Pool.Jwt.{Codecs}
use business2api.Pool.Upload.{find_email}
use business2api.Server.{PoolServer}
use business2api.Server.Results.{
  CookieEntry, no_object, object, cookie_list, new_cookies, update_account_cookies,
}

-- An object that lacks one of its three strings.
abbrev pub is_partial : CookieEntry → Bool
is_partial no_object = false
is_partial (object (some name) (some value) (some domain)) = false
is_partial (object name value domain) = true

abbrev pub any_partial : List CookieEntry → Bool
any_partial [] = false
any_partial (entry ∷ entries) = is_partial entry || any_partial entries

new_cookies-none :
    (entries : List CookieEntry) → (new_cookies entries ≡ none) ↔ (any_partial entries ≡ true)
unfolding new_cookies
new_cookies-none [] = ground arith
new_cookies-none (no_object ∷ entries) = new_cookies-none entries
new_cookies-none (object (some name) (some value) (some domain) ∷ entries) =
    ground (arith, new_cookies-none entries)
new_cookies-none (object (some name) (some value) none ∷ entries) = (λ e. refl, λ e. refl)
new_cookies-none (object (some name) none domain ∷ entries) = (λ e. refl, λ e. refl)
new_cookies-none (object none value domain ∷ entries) = (λ e. refl, λ e. refl)

-- The cookies that a client reports for a ready account end the server if and only if one of them is
-- an object without a string for its name, its value or its domain.
pub update_account_cookies-crash :
    (codecs : Codecs) (s : Settings) (out : Outside) (now : ℕ) (email : Text)
    (entries : List CookieEntry) (ps : PoolServer) (p : ℕ)
    → find_email ps.pool.heap email ps.pool.ready_accounts ≡ some p
    → (update_account_cookies codecs s out now email (cookie_list entries) ps ≡ none)
      ↔ (any_partial entries ≡ true)
unfolding update_account_cookies
update_account_cookies-crash codecs s out now email entries ps p found =
    rw (found, update_account_cookies)
      (elim (Option-cases (new_cookies entries)) [
        | inl crash ↦ rw crash (ground (arith, new_cookies-none entries))
        | inr (cookies, e) ↦ rw e (ground (arith, new_cookies-none entries))
      ])
