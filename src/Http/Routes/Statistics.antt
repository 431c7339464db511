-- ===== src/Http/Routes/Statistics.antt =====
-- The counters of /stat over any sequence of counting and of requests for them.
use acppsrv.Prelude.{
  ◌+◌, ◌%◌, ◌≡◌, refl, String, Bool, true, false, Option, none, some, List, [], ◌∷◌, arith,
  if◌then◌else◌, Bool-cases, inl, inr,
}
use acppsrv.Http.Handler.{Request, Response, Codec, parse, serialize}
use acppsrv.Http.Routes.{StatData, no_data, report, uint64_mod, handle_stat}

-- What happens to the counters: something is counted, or /stat gets a request.
pub data Event : Type 0 where
  counts : StatData → Event
  asks : Request → Event

-- Sums of counters, without wrap-around.
abbrev pub plus : StatData → StatData → StatData
plus a b = record {
  connections = a.connections + b.connections;
  requests = a.requests + b.requests;
  data_req = a.data_req + b.data_req;
  data_resp = a.data_resp + b.data_resp;
}

-- The atomic additions.
abbrev pub bump : StatData → StatData → StatData
bump d a = record {
  connections = (d.connections + a.connections) % uint64_mod;
  requests = (d.requests + a.requests) % uint64_mod;
  data_req = (d.data_req + a.data_req) % uint64_mod;
  data_resp = (d.data_resp + a.data_resp) % uint64_mod;
}

-- The sum of what was counted.
pub counted : List Event → StatData
counted [] = no_data
counted (counts a ∷ es) = plus a (counted es)
counted (asks request ∷ es) = counted es

-- Equal counters, modulo the range of `uint64_t`.
abbrev pub Same : StatData → StatData → Type 0
Same a b =
    (a.connections % uint64_mod ≡ b.connections % uint64_mod)
    × (a.requests % uint64_mod ≡ b.requests % uint64_mod)
    × (a.data_req % uint64_mod ≡ b.data_req % uint64_mod)
    × (a.data_resp % uint64_mod ≡ b.data_resp % uint64_mod)

module _ (iequals : String → String → Bool) (codec : Codec Bool StatData) where
  -- The request can be read and asks for a reset.
  unfoldable pub is_reset : Request → Bool
  is_reset request = elim (parse iequals codec request).0 [ none ↦ false | some reset ↦ reset ]

  -- The counters can be written in a format that the request accepts.
  unfoldable pub is_written : Request → StatData → Bool
  is_written request d = (serialize iequals codec request d (parse iequals codec request).1).0

  -- What a request takes from the counters and its response holds, and what it takes and no response
  -- holds.
  told : Request → StatData → StatData
  told request d =
      if is_reset request then (if is_written request d then d else no_data) else no_data

  unfoldable pub dropped : Request → StatData → StatData
  dropped request d =
      if is_reset request then (if is_written request d then no_data else d) else no_data

  -- The counters in the end.
  pub final : List Event → StatData → StatData
  final [] d = d
  final (counts a ∷ es) d = final es (bump d a)
  final (asks request ∷ es) d = final es (handle_stat iequals codec request d).1

  -- The sums of what the responses to resets hold, and of what was reset and not answered.
  pub reported : List Event → StatData → StatData
  reported [] d = no_data
  reported (counts a ∷ es) d = reported es (bump d a)
  reported (asks request ∷ es) d =
      plus (told request d) (reported es (handle_stat iequals codec request d).1)

  unfoldable pub lost : List Event → StatData → StatData
  lost [] d = no_data
  lost (counts a ∷ es) d = lost es (bump d a)
  lost (asks request ∷ es) d =
      plus (dropped request d) (lost es (handle_stat iequals codec request d).1)

  -- The response to each reset is the one that `serialize` makes of the counters before it.
  abbrev pub HoldsCounters : List Event → StatData → Type 0
  HoldsCounters [] d = Unit
  HoldsCounters (counts a ∷ es) d = HoldsCounters es (bump d a)
  HoldsCounters (asks request ∷ es) d =
      (is_reset request ≡ true
        → (handle_stat iequals codec request d).0
          ≡ (serialize iequals codec request d (parse iequals codec request).1).1)
      × HoldsCounters es (handle_stat iequals codec request d).1

  abbrev Splits : StatData → StatData → StatData → StatData → Type 0
  Splits a b c d =
      (a.connections + b.connections + c.connections ≡ d.connections)
      × (a.requests + b.requests + c.requests ≡ d.requests)
      × (a.data_req + b.data_req + c.data_req ≡ d.data_req)
      × (a.data_resp + b.data_resp + c.data_resp ≡ d.data_resp)

  handle_stat-Splits :
      (request : Request) (d : StatData)
      → Splits (told request d) (dropped request d) (handle_stat iequals codec request d).1 d
  unfolding told dropped is_reset handle_stat report
  handle_stat-Splits request d = go (parse iequals codec request) refl
    where
      go :
          (p : Option Bool × Response)
          → parse iequals codec request ≡ p
          → Splits (told request d) (dropped request d) (handle_stat iequals codec request d).1 d
      go (none, response) e = rw (e, told, dropped, handle_stat, is_reset) (omega arith)
      go (some false, response) e = rw (e, told, dropped, handle_stat, is_reset) (omega arith)
      go (some true, response) e = elim (Bool-cases (is_written request d)) [
        | inl written ↦ rw (e, told, dropped, handle_stat, is_reset) (rw written (omega arith))
        | inr failed ↦ rw (e, told, dropped, handle_stat, is_reset) (rw failed (omega arith))
      ]

  handle_stat-serialize :
      (request : Request) (d : StatData)
      → is_reset request ≡ true
      → (handle_stat iequals codec request d).0
        ≡ (serialize iequals codec request d (parse iequals codec request).1).1
  unfolding is_reset handle_stat report
  handle_stat-serialize request d h = go (parse iequals codec request) refl h
    where
      go :
          (p : Option Bool × Response)
          → parse iequals codec request ≡ p
          → elim p.0 [ none ↦ false | some reset ↦ reset ] ≡ true
          → (handle_stat iequals codec request d).0
            ≡ (serialize iequals codec request d (parse iequals codec request).1).1
      go (none, response) e k = cc
      go (some false, response) e k = cc
      go (some true, response) e k = rw (e, handle_stat) refl

  sums :
      (es : List Event) (d : StatData)
      → Same (plus (plus (reported es d) (lost es d)) (final es d)) (plus d (counted es))
  unfolding reported lost final counted
  sums [] d = omega arith
  sums (counts a ∷ es) d = omega (arith, sums es (bump d a))
  sums (asks request ∷ es) d =
      let left = (handle_stat iequals codec request d).1 in
      let (a, b, c, e) = handle_stat-Splits request d in
      let (a', b', c', e') = sums es left in
      (omega (arith, a, a'), omega (arith, b, b'), omega (arith, c, c'), omega (arith, e, e'))

  holds : (es : List Event) (d : StatData) → HoldsCounters es d
  unfolding final
  holds [] d = tt
  holds (counts a ∷ es) d = holds es (bump d a)
  holds (asks request ∷ es) d =
      (handle_stat-serialize request d, holds es (handle_stat iequals codec request d).1)

  -- In any sequence of counting and of requests to /stat, the response to each request that can be
  -- read and asks for a reset is the one made of the counters before it; and what the responses to
  -- resets hold, what was reset although the counters could not be written in an accepted format, and
  -- what is left in the counters add up to what was there and what was counted, modulo 2 ^ 64, for
  -- each counter. A request reads and resets the four counters at once.
  pub reported-final :
      (es : List Event) (d : StatData)
      → HoldsCounters es d
        × Same (plus (plus (reported es d) (lost es d)) (final es d)) (plus d (counted es))
  reported-final es d = (holds es d, sums es d)
