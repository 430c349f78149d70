-- ===== src/Race/Checkpoints.antt =====
-- The tracks that ParseTrackLayout of internal/race/track.go lets through.
use native.Mathlib.Nat.{mod-lt, mod-add-mod, mod-eq_of_lt}
use Prim.Native.String.{String}
use car_video_game_backend.Base.{
  ℕ, zero, suc, ◌∙◌, ap, sym, ◌+◌, ◌%◌, ◌<◌, ◌≡◌, refl, inl, inr, Option, none, some, length, ◌==◌,
  if-elim, arith, OnSome, OnSome-some, Option-cases,
}
use car_video_game_backend.Race.Floats.{Floats}
use car_video_game_backend.Race.Model.{Uuid, Track}
use car_video_game_backend.Race.Roster.{parse_track_layout, track_len, next_checkpoint}

-- `k` steps of NextCheckpoint.
unfoldable pub next_checkpoints : (fl : Floats) → Track fl → ℕ → ℕ → ℕ
next_checkpoints fl t zero prev = prev
next_checkpoints fl t (suc k) prev = next_checkpoint fl t (next_checkpoints fl t k prev)

module _ (fl : Floats) where
  Parsed : Uuid → String → Track fl → Type 0
  Parsed id name t = (t.id ≡ id) × (t.name ≡ name) × (0 < track_len fl t)

  parse_track_layout-Parsed :
      {Layout : Type 0} (read : Layout → Option (Track fl)) (id : Uuid) (name : String)
      (layout : Option Layout)
      → OnSome (Parsed id name) (parse_track_layout fl read id name layout)
  unfolding parse_track_layout Parsed track_len
  parse_track_layout-Parsed read id name none = tt
  parse_track_layout-Parsed read id name (some layout) = elim (Option-cases (read layout)) [
    | inl e ↦ rw (e, parse_track_layout) tt
    | inr (t, e) ↦
        rw (e, parse_track_layout)
          (if-elim (OnSome (Parsed id name)) (length t.waypoints == 0) (λ _. tt)
            (λ some_left. (refl, refl, ground arith)))
  ]

  next_checkpoints_cycle :
      (t : Track fl) (k prev : ℕ)
      → prev < track_len fl t
      → next_checkpoints fl t k prev ≡ (prev + k) % track_len fl t
  unfolding next_checkpoints next_checkpoint
  next_checkpoints_cycle t zero prev h =
      let e : prev + 0 ≡ prev = omega arith in rw e (sym (mod-eq_of_lt h))
  next_checkpoints_cycle t (suc k) prev h =
      let n = track_len fl t in
      let e : prev + k + 1 ≡ prev + suc k = omega arith in
      ap (next_checkpoint fl t) (next_checkpoints_cycle t k prev h)
      ∙ mod-add-mod (prev + k) n 1
      ∙ ap (λ x. x % n) e

  -- A track that ParseTrackLayout returns has the ID and the name it was asked for and at least one
  -- checkpoint. From any of its checkpoints NextCheckpoint walks around the track: `k` steps lead `k`
  -- checkpoints further, modulo their number, and to one that is there.
  parse_track_layout_cycle :
      {Layout : Type 0} (read : Layout → Option (Track fl)) (id : Uuid) (name : String)
      (layout : Option Layout) (t : Track fl) (k prev : ℕ)
      → parse_track_layout fl read id name layout ≡ some t
      → prev < track_len fl t
      → (t.id ≡ id)
        × (t.name ≡ name)
        × (next_checkpoints fl t k prev ≡ (prev + k) % track_len fl t)
        × (next_checkpoints fl t k prev < track_len fl t)
  unfolding Parsed
  parse_track_layout_cycle read id name layout t k prev e h =
      let (i, n, some_left) =
        OnSome-some (Parsed id name) _ (parse_track_layout-Parsed read id name layout) e in
      let cycle = next_checkpoints_cycle t k prev h in
      (i, n, cycle, rw cycle (mod-lt (prev + k) some_left))
