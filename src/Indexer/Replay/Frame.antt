-- ===== src/Indexer/Replay/Frame.antt =====
-- Relations between a world and the one after a program: the event log, the messages and the cursors
-- of backend/src/indexer, with one rule for each way to build a program.
use stellar_tipz.Base.{
  ◌≡◌, refl, ◌∙◌, Bool, true, false, Option, none, some, List, [], ◌∷◌, when_some, if◌then◌else◌,
}
use stellar_tipz.Indexer.State.{
  World, Exec, Result, ok, thrown, Failure, after, ◌>>=◌, ◌>>◌, return, throw, locally, call_under,
  call, query, write, commit_as, commit, transaction, handle, catching,
}

-- The log, the messages and the cursors are those of the other world.
pub record SameLog (w v : World) : Type 0 where
  pub log : v.event_log ≡ w.event_log
  pub messages : v.published ≡ w.published
  pub progress : v.cursors ≡ w.cursors

pub record Frames {A : Type 0} (m : Exec A) : Type 0 where
  pub at : (w : World) → SameLog w (m w).1

abbrev same : {w : World} → SameLog w w
same = record { log = refl; messages = refl; progress = refl }

SameLog-trans : (u v w : World) → SameLog u v → SameLog v w → SameLog u w
SameLog-trans u v w h k = record {
  log = k.log ∙ h.log;
  messages = k.messages ∙ h.messages;
  progress = k.progress ∙ h.progress;
}

pub Frames-return : {A : Type 0} (a : A) → Frames (return a)
unfolding return
Frames-return a = record { at = λ w. same }

pub Frames-throw : {A : Type 0} (e : Failure) → Frames (throw {A = A} e)
unfolding throw
Frames-throw e = record { at = λ w. same }

pub Frames-locally : (f : World → World) → ((w : World) → SameLog w (f w)) → Frames (locally f)
unfolding locally
Frames-locally f h = record { at = λ w. h w }

call_under-SameLog :
    {A : Type 0} (faults : List Bool) (f : World → A × World) (w : World)
    → ((v : World) → SameLog v (f v).1)
    → SameLog w (call_under faults f w).1
unfolding call_under
call_under-SameLog [] f w h = h w
call_under-SameLog (true ∷ rest) f w h = record { log = refl; messages = refl; progress = refl }
call_under-SameLog (false ∷ rest) f w h =
    let next = h (record w { faults = rest }) in
    record { log = next.log; messages = next.messages; progress = next.progress }

pub Frames-call :
    {A : Type 0} (f : World → A × World) → ((w : World) → SameLog w (f w).1) → Frames (call f)
unfolding call
Frames-call f h = record { at = λ w. call_under-SameLog w.faults f w h }

pub Frames-query : {A : Type 0} (g : World → A) → Frames (query g)
unfolding query
Frames-query g = Frames-call (λ w. (g w, w)) (λ w. same)

pub Frames-write : (f : World → World) → ((w : World) → SameLog w (f w)) → Frames (write f)
unfolding write
Frames-write f h = Frames-call (λ w. (tt, f w)) h

after-SameLog :
    {A B : Type 0} (r : Result A) (f : A → Exec B) (w : World)
    → ((a : A) → Frames (f a))
    → SameLog w (after r f w).1
unfolding after
after-SameLog (ok a) f w h = (h a).at w
after-SameLog (thrown e) f w h = same

pub Frames-bind :
    {A B : Type 0} (m : Exec A) (f : A → Exec B)
    → Frames m
    → ((a : A) → Frames (f a))
    → Frames (m >>= f)
unfolding ◌>>=◌
Frames-bind m f hm hf = record {
  at = λ w. SameLog-trans w (m w).1 _ (hm.at w) (after-SameLog (m w).0 f (m w).1 hf);
}

pub Frames-then : {A B : Type 0} (m : Exec A) (k : Exec B) → Frames m → Frames k → Frames (m >> k)
unfolding ◌>>◌
Frames-then m k hm hk = Frames-bind m (λ _. k) hm (λ _. hk)

commit_as-SameLog :
    {A : Type 0} (before : World) (a : A) (r : Result (Unit {0})) (w : World)
    → SameLog before w
    → SameLog before (commit_as before a (r, w)).1
commit_as-SameLog before a (ok _) w h = h
commit_as-SameLog before a (thrown e) w h = record { log = refl; messages = refl; progress = refl }

commit-SameLog :
    {A : Type 0} (before : World) (r : Result A) (w : World)
    → SameLog before w
    → SameLog before (commit before r w).1
unfolding commit
commit-SameLog before (thrown e) w h = record { log = refl; messages = refl; progress = refl }
commit-SameLog before (ok a) w h =
    commit_as-SameLog before a _ _
      (SameLog-trans before w _ h (call_under-SameLog w.faults (λ v. (tt, v)) w (λ v. same)))

pub Frames-transaction : {A : Type 0} (m : Exec A) → Frames m → Frames (transaction m)
unfolding transaction
Frames-transaction m h = record { at = λ w. commit-SameLog w (m w).0 (m w).1 (h.at w) }

handle-SameLog :
    {A : Type 0} (r : Result A) (handler : Failure → Exec A) (w : World)
    → ((e : Failure) → Frames (handler e))
    → SameLog w (handle r handler w).1
unfolding handle
handle-SameLog (ok a) handler w h = same
handle-SameLog (thrown e) handler w h = (h e).at w

pub Frames-catching :
    {A : Type 0} (m : Exec A) (handler : Failure → Exec A)
    → Frames m
    → ((e : Failure) → Frames (handler e))
    → Frames (catching m handler)
unfolding catching
Frames-catching m handler hm hh = record {
  at = λ w. SameLog-trans w (m w).1 _ (hm.at w) (handle-SameLog (m w).0 handler (m w).1 hh);
}

pub Frames-if :
    {A : Type 0} (b : Bool) (m k : Exec A) → Frames m → Frames k → Frames (if b then m else k)
Frames-if true m k hm hk = hm
Frames-if false m k hm hk = hk

pub Frames-option :
    {A B : Type 0} (o : Option A) (m : Exec B) (f : A → Exec B)
    → Frames m
    → ((a : A) → Frames (f a))
    → Frames (when_some o m f)
Frames-option none m f hm hf = hm
Frames-option (some a) m f hm hf = hf a

pub ruleset frame_rules = (
  Frames-return, Frames-throw, Frames-query, Frames-bind, Frames-then, Frames-transaction,
  Frames-catching, Frames-if, Frames-option,
)
