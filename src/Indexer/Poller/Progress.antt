-- ===== src/Indexer/Poller/Progress.antt =====
-- What `projectEvent` does to the cursors and to the event log, for backend/src/indexer/poller.ts.
use stellar_tipz.Base.{ℕ, ◌≤◌, ◌≡◌, refl, ◌∙◌, Bool, true, false, arith}
use stellar_tipz.Indexer.Value.{Event}
use stellar_tipz.Indexer.State.{
  World, EventKey, Result, ok, thrown, after, ◌>>=◌, ◌>>◌, return, locally,
}
use stellar_tipz.Indexer.Projections.{
  key_of, persist_event_log, project_body, publish_if_new, publish_projection, project_event,
}
use stellar_tipz.Indexer.Replay.Messages.{project_body-Frames}
use stellar_tipz.Indexer.Replay.Once.{seen, seen-le-one, Stored, persist-Stored}

-- The cursors are those of `w`, and no event of its log is lost.
pub record Grows (w v : World) : Type 0 where
  pub progress : v.cursors ≡ w.cursors
  pub kept : (k : EventKey) → seen (w.event_log k) ≤ seen (v.event_log k)

pub Grows-trans : (u v w : World) → Grows u v → Grows v w → Grows u w
Grows-trans u v w h k = record {
  progress = k.progress ∙ h.progress;
  kept = λ i. omega (arith, h.kept i, k.kept i);
}

-- Is the event stored?
abbrev pub IsStored : Event → World → Type 0
IsStored e w = seen (w.event_log (key_of e)) ≡ 1

-- What projecting an event comes to: if it returns, the event is stored.
pub record Projects (e : Event) (w : World) (r : Result (Unit {0})) (v : World) : Type 0 where
  pub grows : Grows w v
  pub stored : r ≡ ok tt → IsStored e v

publish-Projects :
    (e : Event) (is_new : Bool) (w v : World)
    → Grows w v
    → IsStored e v
    → let (r, u) = publish_if_new e is_new v in Projects e w r u
unfolding publish_projection locally return
publish-Projects e false w v g s = record { grows = g; stored = λ _. s }
publish-Projects e true w v g s = record {
  grows = record { progress = g.progress; kept = g.kept };
  stored = λ _. s;
}

body-Projects :
    (e : Event) (is_new : Bool) (w v : World) (r : Result (Unit {0}))
    → Grows w v
    → IsStored e v
    → let (r', u) = after r (λ _. publish_if_new e is_new) v in Projects e w r' u
unfolding after
body-Projects e is_new w v (ok _) g s = publish-Projects e is_new w v g s
body-Projects e is_new w v (thrown x) g s = record { grows = g; stored = λ h. cc }

persist-Projects :
    (e : Event) (now : ℕ) (w v : World) (r : Result Bool)
    → Stored e w r v
    → let (r', u) = after r (λ is_new. project_body e is_new now >> publish_if_new e is_new) v in
      Projects e w r' u
unfolding after ◌>>◌ ◌>>=◌
persist-Projects e now w v (thrown x) st = record {
  grows = record { progress = st.progress; kept = st.kept };
  stored = λ h. cc;
}
persist-Projects e now w v (ok is_new) st =
    let same = (project_body-Frames e is_new now).at v in
    body-Projects e is_new w (project_body e is_new now v).1 (project_body e is_new now v).0
      (record { progress = same.progress ∙ st.progress; kept = λ k. rw same.log (st.kept k) })
      (rw same.log (st.stored is_new refl))

pub project_event-Projects :
    (e : Event) (now : ℕ) (w : World) → let (r, v) = project_event e now w in Projects e w r v
unfolding project_event ◌>>=◌
project_event-Projects e now w =
    persist-Projects e now w (persist_event_log e w).1 (persist_event_log e w).0
      (persist-Stored e w)

pub Grows-same : (w : World) → Grows w w
Grows-same w = record { progress = refl; kept = λ k. omega arith }

pub stays_stored : (e : Event) (v w : World) → Grows v w → IsStored e v → IsStored e w
stays_stored e v w g s = omega (arith, g.kept (key_of e), seen-le-one (w.event_log (key_of e)))
