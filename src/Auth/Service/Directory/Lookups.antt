-- ===== src/Auth/Service/Directory/Lookups.antt =====
-- The answers of internal/auth/repo.go that log a user in, case by case.
use car_video_game_backend.Base.{
  Bool, true, false, ◌≡◌, ◌⊎◌, inl, inr, refl, some, Option-cases, arith,
}
use car_video_game_backend.Framing.{Bytes}
use car_video_game_backend.Race.Model.{Uuid}
use car_video_game_backend.Auth.{InputError, AuthError, Outcome, ok, failed}
use car_video_game_backend.Auth.Accounts.{
  Accounts, select_user, credentials_of, select_player, lookup_user_by_email, player_by_user_id,
}
use car_video_game_backend.Auth.Accounts.Keys.{entry}
use car_video_game_backend.Auth.Service.{Checked, accepted, refused}

pub Checked-cases :
    (c : Checked) → ((why : InputError) × (c ≡ refused why)) ⊎ ((t : Bytes) × (c ≡ accepted t))
Checked-cases (refused why) = inl (why, refl)
Checked-cases (accepted t) = inr (t, refl)

pub Outcome-cases {ℓ} :
    {A : Type ℓ} (o : Outcome A) → ((err : AuthError) × (o ≡ failed err)) ⊎ ((a : A) × (o ≡ ok a))
Outcome-cases (failed err) = inl (err, refl)
Outcome-cases (ok a) = inr (a, refl)

pub lookup_ok :
    (fails : Bool) (s : Accounts) (email : Bytes) {x : Uuid × Bytes}
    → lookup_user_by_email fails s email ≡ ok x
    → credentials_of (select_user s.users email) ≡ ok x
unfolding lookup_user_by_email
lookup_ok true s email e = absurd (cc (e))
lookup_ok false s email e = e

pub player_ok :
    (fails : Bool) (s : Accounts) (user_id : Uuid) {id : Uuid}
    → player_by_user_id fails s user_id ≡ ok id
    → select_player s.players user_id ≡ some id
unfolding player_by_user_id
player_ok true s user_id e = absurd (cc (e))
player_ok false s user_id {id} e = elim (Option-cases (select_player s.players user_id)) [
  | inl n ↦ absurd (cc (n, e))
  | inr (j, q) ↦ ground (arith, q, e)
]

pub entry_found :
    (s : Accounts) (email : Bytes) {user_id player_id : Uuid} {hash : Bytes}
    → credentials_of (select_user s.users email) ≡ ok (user_id, hash)
    → select_player s.players user_id ≡ some player_id
    → entry s email ≡ some (hash, player_id)
unfolding entry
entry_found s email c q = ground (arith, c, q)
