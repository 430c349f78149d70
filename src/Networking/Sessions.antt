-- ===== src/Networking/Sessions.antt =====
-- internal/networking/dispatcher.go: SessionRegistry. A remote address is the number of its text, a
-- race is its ID. What net makes of the text of an address is a parameter.
pub mod Binding
use car_video_game_backend.Base.{
  ℕ, List, [], ◌∷◌, Option, none, some, Bool, true, false, ◌==◌, if◌then◌else◌, Dict, lookup,
  insert,
}
use car_video_game_backend.Race.Model.{Uuid}

abbrev pub Addr : Type 0
Addr = ℕ

-- `none` is the empty key, and the nil race.
pub record AddrEntry : Type 0 where
  pub key : Option Addr
  pub race : Option Uuid

pub record SessionRegistry : Type 0 where
  pub addr : Dict Uuid
  pub player : Dict AddrEntry

unfoldable pub new_sessions : SessionRegistry
new_sessions = record { addr = []; player = [] }

-- The entry of a player once its address is `key`.
abbrev pub with_key : Option AddrEntry → Addr → AddrEntry
with_key none key = record { key = some key; race = none }
with_key (some e) key = record e { key = some key }

unfoldable pub bind_addr : SessionRegistry → Addr → Uuid → SessionRegistry × Bool
bind_addr s key player_id = elim (lookup key s.addr) [
  | some _ ↦ (s, false)
  | none ↦ (
    record {
      addr = insert key player_id s.addr;
      player = insert player_id (with_key (lookup player_id s.player) key) s.player;
    },
    true,
  )
]

unfoldable pub set_race : SessionRegistry → Uuid → Uuid → SessionRegistry
set_race s player_id race = elim (lookup player_id s.player) [
  | none ↦ s
  | some e ↦ record s { player = insert player_id (record e { race = some race }) s.player }
]

unfoldable pub player_from_addr : SessionRegistry → Addr → Option Uuid
player_from_addr s key = lookup key s.addr

unfoldable pub race_from_player : SessionRegistry → Uuid → Option Uuid
race_from_player s player_id = elim (lookup player_id s.player) [ none ↦ none | some e ↦ e.race ]

-- e.race == rc, on pointers.
abbrev same_race : Option Uuid → Option Uuid → Bool
same_race none none = true
same_race (some a) (some b) = a == b
same_race _ _ = false

-- `parse` is net.SplitHostPort, net.ParseIP and the scan of the port; `no_addr` is the zero address.
module _ (UdpAddr : Type 0) (no_addr : UdpAddr) (parse : Addr → Option UdpAddr) where
  pub record PlayerView : Type 0 where
    pub player_id : Uuid
    pub addr : UdpAddr

  abbrev udp_addr : Option Addr → UdpAddr
  udp_addr none = no_addr
  udp_addr (some key) = elim (parse key) [ none ↦ no_addr | some a ↦ a ]

  views : Dict AddrEntry → Option Uuid → List PlayerView
  views [] rc = []
  views ((pid, e) ∷ rest) rc =
      let others = views rest rc in
      if same_race e.race rc
      then record { player_id = pid; addr = udp_addr e.key } ∷ others
      else others

  unfoldable pub race_players : SessionRegistry → Option Uuid → List PlayerView
  unfolding views
  race_players s rc = views s.player rc
