-- ===== src/Indexer/Atomic.antt =====
-- Sequences of writes in a transaction of Prisma, under calls that may fail.
use stellar_tipz.Base.{◌≡◌, ◌⊎◌, inl, inr, refl, ap, ◌∙◌, Bool, true, false, List, [], ◌∷◌, arith}
use stellar_tipz.Indexer.State.{
  World, Result, ok, thrown, database_down, Exec, after, ◌>>=◌, ◌>>◌, call, call_under, write,
  commit, commit_as, transaction,
}

abbrev with_faults : List Bool → World → World
with_faults faults w = record w { faults = faults }

-- The world after the change `f`, or a failed call.
abbrev pub Wrote : (World → World) → World → Result (Unit {0}) × World → Type 0
Wrote f w (r, v) =
    ((r ≡ ok tt) × (v ≡ record (f w) { faults = v.faults })) ⊎ (r ≡ thrown database_down)

-- A change that neither reads nor writes the faults.
abbrev pub IsBlind : (World → World) → Type 0
IsBlind f =
    (w : World) (faults : List Bool)
    → f (record w { faults = faults }) ≡ record (f w) { faults = faults }

write_under :
    (faults : List Bool) (f : World → World) (w : World)
    → IsBlind f
    → Wrote f w (call_under faults (λ v. (tt, f v)) w)
unfolding call_under
write_under [] f w b = inl (refl, refl)
write_under (true ∷ rest) f w b = inr refl
write_under (false ∷ rest) f w b = inl (refl, rw (b w rest) refl)

pub write-Wrote : (f : World → World) → IsBlind f → (w : World) → Wrote f w (write f w)
unfolding write call
write-Wrote f b w = write_under w.faults f w b

after-Wrote :
    (f g : World → World) (k : Exec (Unit {0}))
    → IsBlind g
    → ((v : World) → Wrote g v (k v))
    → (w : World) (r : Result (Unit {0})) (v : World) → Wrote f w (r, v)
    → Wrote (λ x. g (f x)) w (after r (λ _. k) v)
unfolding after
after-Wrote f g k b h w (ok _) v (inl (_, e)) = elim (h v) [
  | inl (ran, e') ↦ inl (
    ran,
    e'
        ∙ ap (λ x. with_faults (k v).1.faults (g x)) e
        ∙ ap (with_faults (k v).1.faults) (b (f w) v.faults),
  )
  | inr broke ↦ inr broke
]
after-Wrote f g k b h w (ok _) v (inr e) = absurd (ground arith)
after-Wrote f g k b h w (thrown x) v (inl (e, _)) = absurd (ground arith)
after-Wrote f g k b h w (thrown x) v (inr e) = inr e

pub then-Wrote :
    (f g : World → World) (m k : Exec (Unit {0}))
    → IsBlind g
    → ((v : World) → Wrote f v (m v))
    → ((v : World) → Wrote g v (k v))
    → (w : World) → Wrote (λ x. g (f x)) w ((m >> k) w)
unfolding ◌>>◌ ◌>>=◌
then-Wrote f g m k b hm hk w = after-Wrote f g k b hk w (m w).0 (m w).1 (hm w)

-- A transaction: the change, or the world before it.
abbrev pub AllOrNothing : (World → World) → World → Result (Unit {0}) × World → Type 0
AllOrNothing f w (r, v) =
    ((r ≡ ok tt) × (v ≡ record (f w) { faults = v.faults }))
    ⊎ ((r ≡ thrown database_down) × (v ≡ record w { faults = v.faults }))

commit_under :
    (faults : List Bool) (f : World → World) (w v : World)
    → v ≡ record (f w) { faults = v.faults }
    → AllOrNothing f w (commit_as w tt (call_under faults (λ x. (tt, x)) v))
unfolding call_under
commit_under [] f w v e = inl (refl, e)
commit_under (true ∷ rest) f w v e = inr (refl, refl)
commit_under (false ∷ rest) f w v e = inl (refl, ap (with_faults rest) e)

commit-AllOrNothing :
    (f : World → World) (w v : World) (r : Result (Unit {0}))
    → Wrote f w (r, v)
    → AllOrNothing f w (commit w r v)
unfolding commit call
commit-AllOrNothing f w v (ok tt) (inl (_, e)) = commit_under v.faults f w v e
commit-AllOrNothing f w v (ok tt) (inr e) = absurd (ground arith)
commit-AllOrNothing f w v (thrown x) (inl (e, _)) = absurd (ground arith)
commit-AllOrNothing f w v (thrown x) (inr e) = inr (e, refl)

pub transaction-AllOrNothing :
    (f : World → World) (m : Exec (Unit {0}))
    → ((v : World) → Wrote f v (m v))
    → (w : World) → AllOrNothing f w (transaction m w)
unfolding transaction
transaction-AllOrNothing f m h w = commit-AllOrNothing f w (m w).1 (m w).0 (h w)

write_under-AllOrNothing :
    (faults : List Bool) (f : World → World) (w : World)
    → IsBlind f
    → AllOrNothing f w (call_under faults (λ v. (tt, f v)) w)
unfolding call_under
write_under-AllOrNothing [] f w b = inl (refl, refl)
write_under-AllOrNothing (true ∷ rest) f w b = inr (refl, refl)
write_under-AllOrNothing (false ∷ rest) f w b = inl (refl, rw (b w rest) refl)

pub write-AllOrNothing :
    (f : World → World) → IsBlind f → (w : World) → AllOrNothing f w (write f w)
unfolding write call
write-AllOrNothing f b w = write_under-AllOrNothing w.faults f w b
