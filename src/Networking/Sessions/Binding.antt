-- ===== src/Networking/Sessions/Binding.antt =====
-- Which player an address speaks for: SessionRegistry of internal/networking/dispatcher.go.
use car_video_game_backend.Base.{
  ℕ, ◌≡◌, refl, ap, ◌∙◌, inl, inr, List, [], ◌∷◌, Option, none, some, Bool, true, false, ◌==◌,
  if◌then◌else◌, arith, Option-cases, Dict, lookup, insert, lookup-insert, lookup-insert_same,
  insert_keeps, Every, Every-lookup, Every-insert, Every-map,
}
use car_video_game_backend.Race.Model.{Uuid}
use car_video_game_backend.Networking.Sessions.{
  Addr, AddrEntry, SessionRegistry, with_key, bind_addr, set_race, player_from_addr,
  race_from_player,
}

-- The key is that of no address, or of one that is bound to the player.
abbrev KeyOf : SessionRegistry → Uuid → Option Addr → Type 0
KeyOf s pid none = Unit
KeyOf s pid (some key) = player_from_addr s key ≡ some pid

-- Every address is bound to a player with an entry, and the address of an entry is bound to it.
pub record Consistent (s : SessionRegistry) : Type 0 where
  pub bound : Every (λ key pid. (e : AddrEntry) × (lookup pid s.player ≡ some e)) s.addr
  pub keyed : Every (λ pid e. KeyOf s pid e.key) s.player

-- What a claim about BindAddr needs: an address that is bound already changes nothing.
bind_addr_cases {ℓ} :
    (P : SessionRegistry × Bool → Type ℓ) (s : SessionRegistry) (key pid : ℕ)
    → ((q : Uuid) → lookup key s.addr ≡ some q → P (s, false))
    → (lookup key s.addr ≡ none
        → P (
          record {
            addr = insert key pid s.addr;
            player = insert pid (with_key (lookup pid s.player) key) s.player;
          },
          true,
        ))
    → P (bind_addr s key pid)
unfolding bind_addr
bind_addr_cases P s key pid taken free = elim (Option-cases (lookup key s.addr)) [
  | inl e ↦ rw (e, bind_addr) (free e)
  | inr (q, e) ↦ rw (e, bind_addr) (taken q e)
]

-- A key that is bound stays bound, to the same player, when another is added.
KeyOf-insert :
    (s : SessionRegistry) (key pid j : ℕ) (m : Dict AddrEntry) (k : Option Addr)
    → lookup key s.addr ≡ none
    → KeyOf s j k
    → KeyOf (record { addr = insert key pid s.addr; player = m }) j k
unfolding player_from_addr
KeyOf-insert s key pid j m none free h = tt
KeyOf-insert s key pid j m (some k) free h =
    rw (lookup-insert key k pid s.addr) (ground (arith, free, h))

with_key-KeyOf :
    (s : SessionRegistry) (pid key : ℕ) (o : Option AddrEntry)
    → player_from_addr s key ≡ some pid
    → KeyOf s pid (with_key o key).key
with_key-KeyOf s pid key none e = e
with_key-KeyOf s pid key (some w) e = e

bind_addr-Consistent :
    (s : SessionRegistry) (key pid : ℕ) → Consistent s → Consistent (bind_addr s key pid).0
unfolding player_from_addr
bind_addr-Consistent s key pid c =
    bind_addr_cases (λ x. Consistent x.0) s key pid (λ _ _. c)
      λ free.
        let e = with_key (lookup pid s.player) key in
        let s' : SessionRegistry = record {
          addr = insert key pid s.addr;
          player = insert pid e s.player;
        } in
        record {
          bound =
              Every-insert _ key pid s.addr (e, lookup-insert_same pid e s.player)
                (Every-map (λ k q h. insert_keeps pid q e s.player h) s.addr c.bound);
          keyed =
              Every-insert (λ q w. KeyOf s' q w.key) pid e s.player
                (with_key-KeyOf s' pid key (lookup pid s.player)
                  (lookup-insert_same key pid s.addr))
                (Every-map (λ q w h. KeyOf-insert s key pid q (insert pid e s.player) w.key free h)
                  s.player c.keyed);
        }

set_race-Consistent :
    (s : SessionRegistry) (pid race : ℕ) → Consistent s → Consistent (set_race s pid race)
unfolding set_race player_from_addr
set_race-Consistent s pid race c = elim (Option-cases (lookup pid s.player)) [
  | inl e ↦ rw (e, set_race) c
  | inr (w, e) ↦
      rw (e, set_race)
        (record {
          bound =
              Every-map (λ k q h. insert_keeps pid q (record w { race = some race }) s.player h)
                s.addr c.bound;
          keyed =
              Every-insert (λ q x. KeyOf s q x.key) pid (record w { race = some race }) s.player
                (Every-lookup (λ q x. KeyOf s q x.key) pid s.player c.keyed e) c.keyed;
        })
]

-- The calls that change a registry.
pub data SessionCall : Type 0 where
  binds : (key pid : ℕ) → SessionCall
  races : (pid race : ℕ) → SessionCall

unfoldable pub call : SessionCall → SessionRegistry → SessionRegistry
call (binds key pid) s = (bind_addr s key pid).0
call (races pid race) s = set_race s pid race

unfoldable pub call_all : List SessionCall → SessionRegistry → SessionRegistry
call_all [] s = s
call_all (c ∷ cs) s = call_all cs (call c s)

call-keeps :
    (c : SessionCall) (s : SessionRegistry) (key pid : ℕ)
    → player_from_addr s key ≡ some pid
    → player_from_addr (call c s) key ≡ some pid
unfolding call player_from_addr set_race
call-keeps (binds k q) s key pid e =
    bind_addr_cases (λ x. player_from_addr x.0 key ≡ some pid) s k q (λ _ _. e)
      λ free. rw (lookup-insert k key q s.addr) (ground (arith, free, e))
call-keeps (races q race) s key pid e = ground (arith, e)

-- After any calls on a registry, an address that was bound to a player is bound to it still, and
-- the registry is consistent if it was: every bound address leads to a player with an entry, and
-- the address in an entry is bound to the player of that entry.
pub call_all-binding :
    (calls : List SessionCall) (s : SessionRegistry) (key pid : ℕ)
    → Consistent s
    → player_from_addr s key ≡ some pid
    → (player_from_addr (call_all calls s) key ≡ some pid) × Consistent (call_all calls s)
unfolding call_all call
call_all-binding [] s key pid c e = (e, c)
call_all-binding (binds k q ∷ calls) s key pid c e =
    call_all-binding calls (bind_addr s k q).0 key pid (bind_addr-Consistent s k q c)
      (call-keeps (binds k q) s key pid e)
call_all-binding (races q race ∷ calls) s key pid c e =
    call_all-binding calls (set_race s q race) key pid (set_race-Consistent s q race c)
      (call-keeps (races q race) s key pid e)

bind_addr_free :
    (s : SessionRegistry) (key pid : ℕ)
    → lookup key s.addr ≡ none
    → bind_addr s key pid ≡ (
      record {
        addr = insert key pid s.addr;
        player = insert pid (with_key (lookup pid s.player) key) s.player;
      },
      true,
    )
unfolding bind_addr
bind_addr_free s key pid e = rw (e, bind_addr) refl

bind_addr_taken :
    (s : SessionRegistry) (key pid : ℕ) {q : Uuid}
    → lookup key s.addr ≡ some q
    → bind_addr s key pid ≡ (s, false)
unfolding bind_addr
bind_addr_taken s key pid e = rw (e, bind_addr) refl

set_race_known :
    (s : SessionRegistry) (pid race : ℕ) {e : AddrEntry}
    → lookup pid s.player ≡ some e
    → set_race s pid race
      ≡ record s { player = insert pid (record e { race = some race }) s.player }
unfolding set_race
set_race_known s pid race h = rw (h, set_race) refl

set_race_unknown :
    (s : SessionRegistry) (pid race : ℕ) → lookup pid s.player ≡ none → set_race s pid race ≡ s
unfolding set_race
set_race_unknown s pid race h = rw (h, set_race) refl

-- After BindAddr and SetRace of a join from an address that is not bound yet, the address speaks
-- for the player, the player is in the race, and no other player's race has changed.
pub join_from_new_address :
    (s : SessionRegistry) (key pid race : ℕ)
    → player_from_addr s key ≡ none
    → (let s' = set_race (bind_addr s key pid).0 pid race in
        (player_from_addr s' key ≡ some pid)
        × ((j : ℕ)
            → race_from_player s' j ≡ (if pid == j then some race else race_from_player s j)))
unfolding player_from_addr race_from_player
join_from_new_address s key pid race free =
    let e = with_key (lookup pid s.player) key in
    let joined =
      ap (λ x. set_race x.0 pid race) (bind_addr_free s key pid free)
      ∙ set_race_known (record { addr = insert key pid s.addr; player = insert pid e s.player }) pid
          race (lookup-insert_same pid e s.player) in
    rw joined (
      lookup-insert_same key pid s.addr,
      λ j. ground (
        arith,
        lookup-insert pid j (record e { race = some race }) (insert pid e s.player),
        lookup-insert pid j e s.player,
      ),
    )

-- BindAddr and SetRace for a player without an entry, from an address that is bound.
pub bound_address_kept :
    (s : SessionRegistry) (key pid q race : ℕ)
    → player_from_addr s key ≡ some q
    → lookup pid s.player ≡ none
    → set_race (bind_addr s key pid).0 pid race ≡ s
unfolding player_from_addr
bound_address_kept s key pid q race e new =
    ap (λ x. set_race x.0 pid race) (bind_addr_taken s key pid e) ∙ set_race_unknown s pid race new
