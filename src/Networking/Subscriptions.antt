-- ===== src/Networking/Subscriptions.antt =====
-- internal/networking/broadcast.go: Subscriptions, and the fan-out of one snapshot (publish). A
-- *net.UDPAddr is an address or nil. The encoding of a snapshot is a parameter, and what publish
-- does is the list of its writes: a failed write is only logged.
pub mod Tables
use car_video_game_backend.Base.{
  ℕ, List, [], ◌∷◌, ◌++◌, Option, none, some, Bool, true, false, ◌==◌, if◌then◌else◌, Dict, lookup,
  insert, delete,
}
use car_video_game_backend.Framing.{Bytes, framing_encode}
use car_video_game_backend.Race.Floats.{Floats}
use car_video_game_backend.Race.Model.{Uuid, WorldSnapshot}
use car_video_game_backend.Networking.Sessions.{Addr}

pub record Subscription : Type 0 where
  pub player_id : Uuid
  pub addr : Option Addr

pub record Subscriptions : Type 0 where
  pub by : Dict Subscription
  pub all : List Subscription

unfoldable pub new_subscriptions : Subscriptions
new_subscriptions = record { by = []; all = [] }

unfoldable pub add : Subscriptions → Uuid → Option Addr → Subscriptions × Bool
add s player_id addr = elim (lookup player_id s.by) [
  | some _ ↦ (s, false)
  | none ↦
      let sub : Subscription = record { player_id = player_id; addr = addr } in
      (record { by = insert player_id sub s.by; all = s.all ++ sub ∷ [] }, true)
]

-- The filter of Remove.
unfoldable pub without : Uuid → List Subscription → List Subscription
without player_id [] = []
without player_id (sub ∷ subs) =
    let rest = without player_id subs in if sub.player_id == player_id then rest else sub ∷ rest

unfoldable pub remove : Subscriptions → Uuid → Subscriptions
unfolding without
remove s player_id = record { by = delete player_id s.by; all = without player_id s.all }

-- The writes of a framed payload.
unfoldable pub writes : Bytes → List Subscription → List (Addr × Bytes)
writes framed [] = []
writes framed (sub ∷ subs) =
    let rest = writes framed subs in elim sub.addr [ none ↦ rest | some a ↦ (a, framed) ∷ rest ]

abbrev write_all : Option Bytes → List Subscription → List (Addr × Bytes)
write_all none subs = []
write_all (some framed) subs = writes framed subs

abbrev frame_snapshot : Option Bytes → Option Bytes
frame_snapshot none = none
frame_snapshot (some payload) = framing_encode payload

-- What ends a select of the broadcaster's loop.
pub data BroadcastWake (fl : Floats) : Type 0 where
  ctx_done race_done channel_closed : BroadcastWake fl
  snapshot : WorldSnapshot fl → BroadcastWake fl

module _ (fl : Floats) (marshal : WorldSnapshot fl → Option Bytes) where
  unfoldable pub publish : Subscriptions → WorldSnapshot fl → List (Addr × Bytes)
  unfolding writes
  publish s snap = write_all (frame_snapshot (marshal snap)) s.all

  -- Broadcaster.Run: the writes of the loop, given what each select ends with and the subscriptions
  -- that it finds then.
  unfoldable pub run_broadcaster : List (Subscriptions × BroadcastWake fl) → List (Addr × Bytes)
  unfolding publish
  run_broadcaster [] = []
  run_broadcaster ((s, snapshot snap) ∷ wakes) = publish s snap ++ run_broadcaster wakes
  run_broadcaster ((s, _) ∷ wakes) = []
