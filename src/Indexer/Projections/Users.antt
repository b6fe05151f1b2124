-- ===== src/Indexer/Projections/Users.antt =====
-- Users: `ensureUserId` and the projections of profile events.
use stellar_tipz.Base.{when_some, ℕ, ◌+◌, Option, none, some, if◌then◌else◌}
use stellar_tipz.Base.Text.{String, str_eq}
use stellar_tipz.Indexer.Value.{Value, Event, arg, tuple_args, address_arg, as_text}
use stellar_tipz.Indexer.State.{World, User, Exec, ◌>>◌, return, locally, write, call, at_text}

-- `warnUnparseable` and `recordUnknownEvent`: the metric counts.
unfoldable pub warn_unparseable : Exec (Unit {0})
warn_unparseable = locally λ w. record w { unknown_events = w.unknown_events + 1 }

-- The row that an upsert on the address leaves: `name` is the username to write, if any.
unfoldable pub upsert_user : String → Option String → World → World
upsert_user address name w = elim (w.users address) [
  | none ↦ record w {
    next_id = w.next_id + 1;
    users = at_text address (record { id = w.next_id; username = name }) w.users;
  }
  | some u ↦ elim name [
    | none ↦ w
    | some n ↦ record w { users = at_text address (record u { username = some n }) w.users }
  ]
]

abbrev pub user_id_of : Option User → ℕ
user_id_of (some u) = u.id
user_id_of none = 0

unfoldable pub ensure_user_id : String → Exec ℕ
unfolding upsert_user
ensure_user_id address =
    call λ w. let w' = upsert_user address none w in (user_id_of (w'.users address), w')

-- An empty username is none.
unfoldable pub username_of : Value → Option String
unfolding as_text
username_of v = elim (as_text v) [ none ↦ none | some n ↦ if str_eq n "" then none else some n ]

unfoldable pub project_profile_registered : Event → Exec (Unit {0})
unfolding upsert_user username_of
project_profile_registered e =
    let args = tuple_args e.value in
    when_some (as_text (arg 0 args)) warn_unparseable
      (λ owner. write (upsert_user owner (username_of (arg 1 args))))

unfoldable pub project_profile_updated : Event → Exec (Unit {0})
unfolding ensure_user_id
project_profile_updated e =
    when_some (address_arg e.value) warn_unparseable (λ owner. do ensure_user_id owner; return tt)
