-- ===== src/Storage/Caching/Evict/Steps.antt =====
-- How a round of doEvict goes, by its parts.
use invariant_go.Shared.{◌≡◌, refl, none, some, ◌⊎◌, inl, inr, Text}
use invariant_go.Storage.Interface.{StorageOps}
use invariant_go.Storage.Caching.{Controlled, CachingStorage}
use invariant_go.Storage.Caching.Evict.{
  Round, again, stop, send_away, candidate, remove_local, evict_round,
}

pub Round-cases : (r : Round) → (r ≡ again) ⊎ (r ≡ stop)
Round-cases again = inl refl
Round-cases stop = inr refl

module _ {L D O : Type 0} (lo : Controlled L) (dest : StorageOps D) (over : Controlled O) where
  pub round-none :
      (s : CachingStorage L D O)
      → candidate lo dest over s ≡ none
      → evict_round lo dest over s ≡ (stop, s)
  unfolding evict_round
  round-none s e = rw (e, evict_round) refl

  pub round-stop :
      (s : CachingStorage L D O) (a : Text)
      → candidate lo dest over s ≡ some a
      → (send_away lo dest over a s).0 ≡ stop
      → evict_round lo dest over s ≡ (stop, (send_away lo dest over a s).1)
  unfolding evict_round
  round-stop s a e h = rw (e, evict_round) (rw (h, evict_round) refl)

  pub round-again :
      (s : CachingStorage L D O) (a : Text)
      → candidate lo dest over s ≡ some a
      → (send_away lo dest over a s).0 ≡ again
      → evict_round lo dest over s ≡ remove_local lo dest over a (send_away lo dest over a s).1
  unfolding evict_round
  round-again s a e h = rw (e, evict_round) (rw (h, evict_round) refl)
