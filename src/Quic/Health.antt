-- ===== src/Quic/Health.antt =====
-- landro-quic/src/recovery.rs: ConnectionHealthMonitor. A connection is its text; what a probe of it
-- finds is an argument, `now` the instant of the check. Durations are nanoseconds.
use landropic.Prelude.{
  ℕ, ◌+◌, ◌/◌, ◌%◌, ◌^◌, ◌≡◌, refl, Option, none, some, List, [], ◌∷◌, Str, if◌then◌else◌, leb, ltb,
  arith, Option-cases, inl, inr, ap, ◌∙◌, str_eq_refl,
}
use landropic.Prelude.Dict.{Dict, lookup, insert, remove, lookup-insert, lookup-remove}
use landropic.Quic.Errors.{QuicError}

pub record ConnectionHealth : Type 0 where
  pub connection : Str
  pub last_ping : Option ℕ
  pub ping_failures : ℕ
  pub avg_rtt : Option ℕ

-- conn.is_closed(), and otherwise what open_uni gives, with the time it took.
pub data Probe : Type 0 where
  is_closed : Probe
  opens : (rtt : ℕ) → Probe
  fails : QuicError → Probe

unfoldable pub monitor_connection : Str → Str → Dict ConnectionHealth → Dict ConnectionHealth
monitor_connection id connection connections =
    insert id
      (record { connection = connection; last_ping = none; ping_failures = 0; avg_rtt = none })
      connections

unfoldable pub unmonitor_connection : Str → Dict ConnectionHealth → Dict ConnectionHealth
unmonitor_connection id connections = remove id connections

unfoldable pub average : Option ℕ → ℕ → ℕ
average none rtt = rtt
average (some existing) rtt = (existing + rtt) / 2 % 2 ^ 64

unfoldable pub passed : ℕ → ℕ → ConnectionHealth → ConnectionHealth
unfolding average
passed now rtt health = record health {
  last_ping = some now;
  ping_failures = 0;
  avg_rtt = some (average health.avg_rtt rtt);
}

-- A failure is counted, and the third in a row removes the connection.
unfoldable pub missed : Str → ConnectionHealth → Dict ConnectionHealth → Dict ConnectionHealth
missed id health connections =
    let counted : ConnectionHealth = record health { ping_failures = health.ping_failures + 1 } in
    if leb 3 counted.ping_failures then remove id connections else insert id counted connections

-- The error, if any, and the connections after the check.
unfoldable pub ping_connection :
    ℕ → Probe → Str → Dict ConnectionHealth → Option QuicError × Dict ConnectionHealth
unfolding passed missed
ping_connection now probe id connections = elim (lookup id connections) [
  | none ↦ (none, connections)
  | some health ↦ elim probe [
    | is_closed ↦ (none, remove id connections)
    | opens rtt ↦ (none, insert id (passed now rtt health) connections)
    | fails e ↦ (some e, missed id health connections)
  ]
]

-- The loop over the keys, in the order in which they were listed; the errors are only logged.
unfoldable pub check_all_connections :
    ℕ → (Str → Probe) → List Str → Dict ConnectionHealth → Dict ConnectionHealth
unfolding ping_connection
check_all_connections now probe [] connections = connections
check_all_connections now probe (id ∷ ids) connections =
    check_all_connections now probe ids (ping_connection now (probe id) id connections).1

-- Pings of one connection, one after the other.
unfoldable pub ping_times : Str → List (ℕ × Probe) → Dict ConnectionHealth → Dict ConnectionHealth
unfolding ping_connection
ping_times id [] connections = connections
ping_times id ((now, probe) ∷ probes) connections =
    ping_times id probes (ping_connection now probe id connections).1

-- What is watched of a connection, by its probes alone: the failures in a row, or `none` once it is given up.
pub watch : Probe → Option ℕ → Option ℕ
watch probe none = none
watch is_closed (some n) = none
watch (opens rtt) (some n) = some 0
watch (fails e) (some n) = if ltb n 2 then some (n + 1) else none

pub watch_all : List (ℕ × Probe) → Option ℕ → Option ℕ
watch_all [] n = n
watch_all ((now, probe) ∷ probes) n = watch_all probes (watch probe n)

failures_of : Option ConnectionHealth → Option ℕ
failures_of none = none
failures_of (some health) = some health.ping_failures

pub watched : Str → Dict ConnectionHealth → Option ℕ
unfolding failures_of
watched id connections = failures_of (lookup id connections)

watched-ping_connection :
    (now : ℕ) (probe : Probe) (id : Str) (connections : Dict ConnectionHealth)
    → watched id (ping_connection now probe id connections).1 ≡ watch probe (watched id connections)
unfolding watched failures_of ping_connection passed missed watch
watched-ping_connection now is_closed id connections =
    ground (arith, lookup-remove id id connections, str_eq_refl id)
watched-ping_connection now (opens rtt) id connections =
    elim (Option-cases (lookup id connections)) [
      | inl gone ↦ ground (arith, gone)
      | inr (health, found) ↦
          rw (found, ping_connection)
            (ground (
              arith,
              found,
              lookup-insert id id (passed now rtt health) connections,
              str_eq_refl id,
            ))
    ]
watched-ping_connection now (fails e) id connections = elim (Option-cases (lookup id connections)) [
  | inl gone ↦ ground (arith, gone)
  | inr (health, found) ↦
      let counted : ConnectionHealth = record health { ping_failures = health.ping_failures + 1 } in
      ground (
        arith,
        found,
        lookup-insert id id counted connections,
        lookup-remove id id connections,
        str_eq_refl id,
      )
]

-- Over any probes of a connection, the monitor counts the failures since the last success, and has removed the
-- connection at the third in a row, or once it was found closed.
pub watched-ping_times :
    (id : Str) (probes : List (ℕ × Probe)) (connections : Dict ConnectionHealth)
    → watched id (ping_times id probes connections) ≡ watch_all probes (watched id connections)
unfolding ping_times watch_all
watched-ping_times id [] connections = refl
watched-ping_times id ((now, probe) ∷ probes) connections =
    watched-ping_times id probes (ping_connection now probe id connections).1
    ∙ ap (watch_all probes) (watched-ping_connection now probe id connections)
