-- ===== src/Networking/Subscriptions/Tables.antt =====
-- What the table of subscriptions keeps, and what a snapshot's datagrams hold: internal/networking/
-- broadcast.go against internal/protoframing.
use car_video_game_backend.Base.{
  ◌≤◌, ◌≡◌, refl, sym, ◌∙◌, inl, inr, List, [], ◌∷◌, ◌++◌, append-nil, Option, none, some, ◌==◌,
  if◌then◌else◌, if-elim, arith, length, Option-cases, lookup, lookup-insert, lookup-delete,
}
use car_video_game_backend.Framing.{Bytes, max_frame, frame, decode, framing_encode}
use car_video_game_backend.Framing.RoundTrip.{decode-encode, framing_encode-encode}
use car_video_game_backend.Race.Floats.{Floats}
use car_video_game_backend.Race.Model.{Uuid, WorldSnapshot}
use car_video_game_backend.Networking.Sessions.{Addr}
use car_video_game_backend.Networking.Subscriptions.{
  Subscription, Subscriptions, new_subscriptions, add, without, remove, writes, publish,
}

-- The first subscription of a player in the list.
unfoldable pub find : Uuid → List Subscription → Option Subscription
find pid [] = none
find pid (sub ∷ subs) = if sub.player_id == pid then some sub else find pid subs

-- No player stands twice in the list.
abbrev Single : List Subscription → Type 0
Single [] = Unit
Single (sub ∷ subs) = (find sub.player_id subs ≡ none) × Single subs

-- The map and the list hold the same, and each player once.
pub record Agree (s : Subscriptions) : Type 0 where
  pub same : (pid : Uuid) → lookup pid s.by ≡ find pid s.all
  pub single : Single s.all

find-append :
    (pid : Uuid) (sub : Subscription) (subs : List Subscription)
    → find sub.player_id subs ≡ none
    → find pid (subs ++ sub ∷ []) ≡ (if sub.player_id == pid then some sub else find pid subs)
unfolding find
find-append pid sub [] h = refl
find-append pid sub (x ∷ subs) h = ground (arith, find-append pid sub subs)

find-without :
    (pid j : Uuid) (subs : List Subscription)
    → find j (without pid subs) ≡ (if pid == j then none else find j subs)
unfolding find without
find-without pid j [] = ground arith
find-without pid j (x ∷ subs) = ground (arith, find-without pid j subs)

Single-append :
    (sub : Subscription) (subs : List Subscription)
    → find sub.player_id subs ≡ none
    → Single subs
    → Single (subs ++ sub ∷ [])
unfolding find
Single-append sub [] h s = (refl, tt)
Single-append sub (x ∷ subs) h s =
    ground (arith, find-append x.player_id sub subs, Single-append sub subs, s)

Single-without : (pid : Uuid) (subs : List Subscription) → Single subs → Single (without pid subs)
unfolding without find
Single-without pid [] s = tt
Single-without pid (x ∷ subs) s =
    if-elim Single (x.player_id == pid) (λ _. Single-without pid subs s.1)
      (λ ne.
        (rw (find-without pid x.player_id subs) (ground (arith, s)), Single-without pid subs s.1))

-- The calls that change a table.
pub data TableCall : Type 0 where
  adds : Uuid → Option Addr → TableCall
  removes : Uuid → TableCall

unfoldable pub call : TableCall → Subscriptions → Subscriptions
call (adds pid addr) s = (add s pid addr).0
call (removes pid) s = remove s pid

unfoldable pub call_all : List TableCall → Subscriptions → Subscriptions
call_all [] s = s
call_all (c ∷ cs) s = call_all cs (call c s)

add-Agree :
    (s : Subscriptions) (pid : Uuid) (addr : Option Addr) → Agree s → Agree (add s pid addr).0
unfolding add
add-Agree s pid addr h = elim (Option-cases (lookup pid s.by)) [
  | inr (x, e) ↦ rw (e, add) h
  | inl e ↦
      let sub : Subscription = record { player_id = pid; addr = addr } in
      let new : find pid s.all ≡ none = sym (h.same pid) ∙ e in
      rw (e, add)
        (record {
          same = λ j. rw (lookup-insert pid j sub s.by, find-append j sub s.all new, h.same j) refl;
          single = Single-append sub s.all new h.single;
        })
]

remove-Agree : (s : Subscriptions) (pid : Uuid) → Agree s → Agree (remove s pid)
unfolding remove
remove-Agree s pid h = record {
  same = λ j. rw (lookup-delete pid j s.by, find-without pid j s.all, h.same j) refl;
  single = Single-without pid s.all h.single;
}

call_all-keeps : (calls : List TableCall) (s : Subscriptions) → Agree s → Agree (call_all calls s)
unfolding call_all call
call_all-keeps [] s h = h
call_all-keeps (adds pid addr ∷ calls) s h = call_all-keeps calls _ (add-Agree s pid addr h)
call_all-keeps (removes pid ∷ calls) s h = call_all-keeps calls _ (remove-Agree s pid h)

-- After any calls of Add and Remove on a new table, its map and its list hold the same
-- subscriptions, and no player stands twice in the list.
pub call_all-Agree : (calls : List TableCall) → Agree (call_all calls new_subscriptions)
unfolding new_subscriptions find lookup
call_all-Agree calls = call_all-keeps calls _ (record { same = λ pid. refl; single = tt })

-- The addresses of the subscriptions that have one.
unfoldable pub addresses : List Subscription → List Addr
addresses [] = []
addresses (sub ∷ subs) =
    let rest = addresses subs in elim sub.addr [ none ↦ rest | some a ↦ a ∷ rest ]

-- The same bytes, to each address in turn.
unfoldable pub to_each : Bytes → List Addr → List (Addr × Bytes)
to_each bytes [] = []
to_each bytes (a ∷ rest) = (a, bytes) ∷ to_each bytes rest

writes-to_each :
    (bytes : Bytes) (subs : List Subscription) → writes bytes subs ≡ to_each bytes (addresses subs)
unfolding writes addresses to_each
writes-to_each bytes [] = refl
writes-to_each bytes (sub ∷ subs) = ground (arith, writes-to_each bytes subs)

module _ (fl : Floats) (marshal : WorldSnapshot fl → Option Bytes) where
  -- A snapshot whose encoding is at most 64 KiB goes out as one datagram to each subscribed address,
  -- in the order of the subscriptions, and what a client decodes of it is that encoding.
  pub publish-decode :
      (s : Subscriptions) (snap : WorldSnapshot fl) (payload : Bytes)
      → marshal snap ≡ some payload
      → length payload ≤ max_frame
      → (bytes : Bytes) × (publish fl marshal s snap ≡ to_each bytes (addresses s.all))
        × (decode bytes ≡ frame payload [])
  unfolding publish
  publish-decode s snap payload e h =
      let (bytes, enc, dec) = decode-encode payload [] h in
      let same : framing_encode payload ≡ some bytes =
        rw (framing_encode-encode payload, enc) refl in
      (
        bytes,
        rw (e, publish) (rw (same, publish) (writes-to_each bytes s.all)),
        rw (append-nil bytes) at dec,
      )
