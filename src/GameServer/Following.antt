-- ===== src/GameServer/Following.antt =====
-- followSubscriptions of cmd/game-server/main.go: which address a player's snapshots go to.
use car_video_game_backend.Base.{
  ◌≡◌, refl, List, [], ◌∷◌, Option, none, some, Bool, true, false, ◌==◌, if◌then◌else◌, lookup,
  lookup-insert, Option-cases, inl, inr, arith,
}
use car_video_game_backend.Race.Model.{Uuid}
use car_video_game_backend.Networking.Sessions.{Addr, PlayerView, race_players}
use car_video_game_backend.Networking.Subscriptions.{Subscription, Subscriptions, add}
use car_video_game_backend.GameServer.{
  FollowWake, ctx_done, race_done, tick, add_views, follow_tick, follow_subscriptions,
}

abbrev pub or_else : Option Subscription → Option Subscription → Option Subscription
or_else (some s) other = some s
or_else none other = other

or_else_assoc : (a b c : Option Subscription) → or_else (or_else a b) c ≡ or_else a (or_else b c)
or_else_assoc none b c = refl
or_else_assoc (some s) b c = refl

or_else-none : (a : Option Subscription) → a ≡ or_else a none
or_else-none none = refl
or_else-none (some s) = refl

or_else_if :
    (a : Option Subscription) (b : Bool) (x : Subscription) (c : Option Subscription)
    → or_else (or_else a (if b then some x else none)) c ≡ or_else a (if b then some x else c)
or_else_if none true x c = refl
or_else_if none false x c = refl
or_else_if (some s) b x c = refl

lookup-add :
    (subs : Subscriptions) (pid : Uuid) (addr : Option Addr) (j : Uuid)
    → lookup j (add subs pid addr).0.by
      ≡ or_else
          (lookup j subs.by)
          (if pid == j then some (record { player_id = pid; addr = addr }) else none)
unfolding add
lookup-add subs pid addr j = elim (Option-cases (lookup pid subs.by)) [
  | inl e ↦
      rw (add, e, lookup-insert pid j (record { player_id = pid; addr = addr }) subs.by)
        (ground (arith, e))
  | inr (sub, e) ↦ rw (add, e) (ground (arith, e))
]

module _ (no_addr : Addr) (parse : Addr → Option Addr) where
  -- The subscription that the first view of a player makes.
  abbrev pub first_view : List (PlayerView Addr no_addr parse) → Uuid → Option Subscription
  first_view [] j = none
  first_view (v ∷ views) j =
      if v.player_id == j
      then some (record { player_id = v.player_id; addr = some v.addr })
      else first_view views j

  -- That of the first tick, before the end of the loop, at which the player is in the race.
  abbrev pub first_seen : (race : Uuid) → List FollowWake → Uuid → Option Subscription
  first_seen race (tick s ∷ wakes) j =
      or_else (first_view (race_players Addr no_addr parse s (some race)) j)
        (first_seen race wakes j)
  first_seen race _ j = none

  lookup-add_views :
      (subs : Subscriptions) (views : List (PlayerView Addr no_addr parse)) (j : Uuid)
      → lookup j (add_views no_addr parse subs views).by
        ≡ or_else (lookup j subs.by) (first_view views j)
  unfolding add_views
  lookup-add_views subs [] j = or_else-none _
  lookup-add_views subs (v ∷ views) j =
      rw
        (
          lookup-add_views (add subs v.player_id (some v.addr)).0 views j,
          lookup-add subs v.player_id (some v.addr) j,
        )
        (or_else_if (lookup j subs.by) _ _ _)

  -- While followSubscriptions runs, a player's subscription is the one that it had, or else the address
  -- of the first tick at which it was in the race. It is never dropped and never follows the player to
  -- another address, whatever the sessions say later.
  pub follow_subscriptions-lookup :
      (race : Uuid) (subs : Subscriptions) (wakes : List FollowWake) (j : Uuid)
      → lookup j (follow_subscriptions no_addr parse race subs wakes).by
        ≡ or_else (lookup j subs.by) (first_seen race wakes j)
  unfolding follow_subscriptions follow_tick
  follow_subscriptions-lookup race subs [] j = or_else-none _
  follow_subscriptions-lookup race subs (tick s ∷ wakes) j =
      rw
        (
          follow_subscriptions-lookup race (follow_tick no_addr parse race subs s) wakes j,
          lookup-add_views subs (race_players Addr no_addr parse s (some race)) j,
        )
        (or_else_assoc (lookup j subs.by)
          (first_view (race_players Addr no_addr parse s (some race)) j) (first_seen race wakes j))
  follow_subscriptions-lookup race subs (ctx_done ∷ wakes) j = or_else-none _
  follow_subscriptions-lookup race subs (race_done ∷ wakes) j = or_else-none _
