-- ===== src/Indexer/Replay/Once.antt =====
-- How often `projectEvent` (backend/src/indexer/projections.ts) sends an event.
use stellar_tipz.Base.{
  ℕ, suc, ◌≤◌, ◌≡◌, refl, sym, ap, Bool, true, false, Option, none, some, List, [], ◌∷◌, inl, inr,
  arith, when_some, Option-cases, Bool-cases, if◌then◌else◌,
}
use mathlib.Core.Path.{subst}
use stellar_tipz.Base.Text.{eq_iff, eq_refl}
use stellar_tipz.Indexer.Value.{Value, Event}
use stellar_tipz.Indexer.State.{
  World, EventKey, same_event, Result, ok, thrown, return, call, call_under, query, after, ◌>>=◌,
  ◌>>◌, locally,
}
use stellar_tipz.Indexer.Projections.{
  key_of, persist_event_log, insert_event, create_event_log, publish_projection, publish_if_new,
  project_body, project_event,
}
use stellar_tipz.Indexer.Replay.Frame.{SameLog}
use stellar_tipz.Indexer.Replay.Messages.{project_body-Frames}

-- How often an event is among the messages, and in the log.
pub times : EventKey → List EventKey → ℕ
times k [] = 0
times k (x ∷ xs) = let rest = times k xs in if same_event x k then suc rest else rest

abbrev pub seen : Option Value → ℕ
seen none = 0
seen (some v) = 1

-- Every event has been sent at most once, and never if it is not in the log.
abbrev pub SentOnce : World → Type 0
SentOnce w = (k : EventKey) → times k w.published ≤ seen (w.event_log k)

-- A world that has sent nothing.
pub nothing-SentOnce : (w : World) → w.published ≡ [] → SentOnce w
unfolding times
nothing-SentOnce w e k = rw e (omega arith)

same_event-eq : (a b : EventKey) → same_event a b ≡ true → a ≡ b
same_event-eq a b h = ground (arith, eq_iff a.tx_hash b.tx_hash, eq_iff a.topic b.topic)

-- What storing an event does to the log: nothing is lost, and the answer "new" means that it was
-- not there; either answer, that it is there now.
pub record Stored (e : Event) (w : World) (r : Result Bool) (v : World) : Type 0 where
  pub messages : v.published ≡ w.published
  pub progress : v.cursors ≡ w.cursors
  pub kept : (k : EventKey) → seen (w.event_log k) ≤ seen (v.event_log k)
  pub fresh : r ≡ ok true → (w.event_log (key_of e) ≡ none)
  pub stored : (b : Bool) → r ≡ ok b → (seen (v.event_log (key_of e)) ≡ 1)

pub seen-le-one : (o : Option Value) → seen o ≤ 1
seen-le-one none = omega arith
seen-le-one (some v) = omega arith

pub same_event_refl : (k : EventKey) → same_event k k ≡ true
same_event_refl k = ground (arith, eq_refl k.tx_hash, eq_refl k.topic)

-- The insertion, in a world that differs from `w` by its faults alone.
insert-Stored :
    (e : Event) (w : World) (faults : List Bool)
    → let (new, v) = insert_event e (record w { faults = faults }) in Stored e w (ok new) v
unfolding insert_event
insert-Stored e w faults = elim (Option-cases (w.event_log (key_of e))) [
  | inl none_yet ↦
      rw (none_yet, insert_event)
        (record {
          messages = refl;
          progress = refl;
          kept = λ k. ground (arith, seen-le-one (w.event_log k));
          fresh = λ _. none_yet;
          stored = λ b _. rw (same_event_refl (key_of e));
        })
  | inr (v, there) ↦
      rw (there, insert_event)
        (record {
          messages = refl;
          progress = refl;
          kept = λ k. omega arith;
          fresh = λ h. cc;
          stored = λ b h. rw there refl;
        })
]

unchanged-Stored :
    (e : Event) (w : World) (faults : List Bool) (r : Result Bool)
    → (r ≡ ok true → ⊥)
    → ((b : Bool) → r ≡ ok b → seen (w.event_log (key_of e)) ≡ 1)
    → Stored e w r (record w { faults = faults })
unchanged-Stored e w faults r old known = record {
  messages = refl;
  progress = refl;
  kept = λ k. omega arith;
  fresh = λ h. absurd (old h);
  stored = known;
}

create-Stored :
    (faults : List Bool) (e : Event) (w : World)
    → let (r, v) = create_event_log e (record w { faults = faults }) in Stored e w r v
unfolding create_event_log call call_under
create-Stored [] e w = insert-Stored e w []
create-Stored (true ∷ fs) e w = unchanged-Stored e w fs _ (λ h. cc) (λ b h. cc)
create-Stored (false ∷ fs) e w = insert-Stored e w fs

-- After the search for the row.
found-Stored :
    (o : Option Value) (faults : List Bool) (e : Event) (w : World)
    → o ≡ w.event_log (key_of e)
    → let (r, v) =
        when_some o (create_event_log e) (λ x. return false) (record w { faults = faults }) in
      Stored e w r v
unfolding return
found-Stored none faults e w there = create-Stored faults e w
found-Stored (some x) faults e w there =
    unchanged-Stored e w faults _ (λ h. cc) (λ b h. rw (sym there) refl)

persist_under-Stored :
    (faults : List Bool) (e : Event) (w : World)
    → let (r, v) = persist_event_log e (record w { faults = faults }) in Stored e w r v
unfolding persist_event_log ◌>>=◌ query call call_under
persist_under-Stored [] e w = found-Stored (w.event_log (key_of e)) [] e w refl
persist_under-Stored (true ∷ fs) e w = unchanged-Stored e w fs _ (λ h. cc) (λ b h. cc)
persist_under-Stored (false ∷ fs) e w = found-Stored (w.event_log (key_of e)) fs e w refl

pub persist-Stored : (e : Event) (w : World) → let (r, v) = persist_event_log e w in Stored e w r v
persist-Stored e w = persist_under-Stored w.faults e w

old_messages :
    (e : Event) (w v u : World) (r : Result Bool)
    → SentOnce w
    → Stored e w r v
    → SameLog v u
    → SentOnce u
old_messages e w v u r once st same k =
    rw (same.log, same.messages, st.messages) (omega (arith, once k, st.kept k))

new_self :
    (e : Event) (w v u : World)
    → SentOnce w
    → Stored e w (ok true) v
    → SameLog v u
    → suc (times (key_of e) u.published) ≤ seen (u.event_log (key_of e))
new_self e w v u once st same =
    rw (same.log, same.messages, st.messages)
      (omega (arith, once (key_of e), ap seen (st.fresh refl), st.stored true refl))

new_message :
    (e : Event) (w v u : World)
    → SentOnce w
    → Stored e w (ok true) v
    → SameLog v u
    → (k : EventKey) → times k (key_of e ∷ u.published) ≤ seen (u.event_log k)
unfolding times
new_message e w v u once st same k = elim (Bool-cases (same_event (key_of e) k)) [
  | inl hit ↦ rw hit (
      subst (λ j. suc (times j u.published) ≤ seen (u.event_log j)) (same_event-eq (key_of e) k hit)
        (new_self e w v u once st same))
  | inr miss ↦ rw miss (old_messages e w v u (ok true) once st same k)
]

after_body :
    (e : Event) (w v u : World) (is_new : Bool) (r : Result (Unit {0}))
    → SentOnce w
    → Stored e w (ok is_new) v
    → SameLog v u
    → SentOnce (after r (λ _. publish_if_new e is_new) u).1
unfolding after publish_projection locally return
after_body e w v u is_new (thrown x) once st same = old_messages e w v u (ok is_new) once st same
after_body e w v u false (ok _) once st same = old_messages e w v u (ok false) once st same
after_body e w v u true (ok _) once st same = new_message e w v u once st same

after_persist :
    (e : Event) (now : ℕ) (w v : World) (r : Result Bool)
    → SentOnce w
    → Stored e w r v
    → SentOnce (after r (λ is_new. project_body e is_new now >> publish_if_new e is_new) v).1
unfolding after ◌>>◌ ◌>>=◌
after_persist e now w v (thrown x) once st =
    old_messages e w v v (thrown x) once st
      (record { log = refl; messages = refl; progress = refl })
after_persist e now w v (ok is_new) once st =
    after_body e w v (project_body e is_new now v).1 is_new (project_body e is_new now v).0 once st
      ((project_body-Frames e is_new now).at v)

-- Whatever calls of the database fail, projecting an event keeps it so that every event has been
-- sent to the realtime layer at most once, and only if it is stored.
project_event-SentOnce :
    (e : Event) (now : ℕ) (w : World) → SentOnce w → SentOnce (project_event e now w).1
unfolding project_event ◌>>=◌
project_event-SentOnce e now w once =
    after_persist e now w (persist_event_log e w).1 (persist_event_log e w).0 once
      (persist-Stored e w)

-- Events projected one after the other, failed ones included.
unfoldable pub project_all : List (Event × ℕ) → World → World
project_all [] w = w
project_all ((e, now) ∷ es) w = project_all es (project_event e now w).1

-- So it is after any events in any order, repeated or not, whatever fails.
pub project_all-SentOnce :
    (es : List (Event × ℕ)) (w : World) → SentOnce w → SentOnce (project_all es w)
unfolding project_all
project_all-SentOnce [] w once = once
project_all-SentOnce ((e, now) ∷ es) w once =
    project_all-SentOnce es (project_event e now w).1 (project_event-SentOnce e now w once)
