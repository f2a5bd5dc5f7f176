-- ===== src/Observations/Latest/Tests.antt =====
-- observations/latest.py: a slot at concrete observations.
use viskium.Prelude.{ℕ, ◌-◌, ltb, ◌≡◌, refl, none, some, true, false, List, [], ◌∷◌, if◌then◌else◌}
use viskium.Core.Value.{natural, string, finite, ok}
use viskium.Core.Envelope.{ObservationEnvelope}
use viskium.Core.Sample.{sample}
use viskium.Observations.Latest.{ReadOutcome, new_slot, Call, offers, reads, apply_all}
use viskium.Observations.Latest.Arguments.{collection}
use viskium.Observations.Latest.Read.{Query, Arguments, Turn, check_arguments, read, returned}
use viskium.Observations.Latest.Read.Ends.{Returns, read-Returns}
use viskium.Observations.Latest.Held.{
  has_close, last_offered, offers_before, offers_after, count_reads, reads_of, slot_is_register,
}

abbrev observation : ℕ → ObservationEnvelope
observation n = sample "front:0" n

abbrev arguments : Arguments
arguments = record {
  now_monotonic_ns = natural 100;
  max_age_ns = natural 90;
  wait_seconds = natural 2;
  schema_ids = collection (string "count" ∷ []);
}

abbrev query : Query
query = record {
  now_ns = 100;
  max_age_ns = 90;
  max_wait = finite false 2 0;
  schemas = some ("count" ∷ []);
}

query_lem : check_arguments arguments ≡ ok query
unfolding check_arguments
query_lem = refl

abbrev turns : List Turn
turns =
    record { expired = false; meanwhile = reads ReadOutcome.empty ∷ offers (observation 95) ∷ [] }
    ∷ record { expired = true; meanwhile = [] }
    ∷ []

-- The observation that comes while `read` waits is 5 ns old, and 20 ns were waited.
fresh_read :
    (read (natural 0, natural 20) turns arguments new_slot).1
    ≡ returned
        (record { outcome = ReadOutcome.ok; observation = some (observation 95); age_ns = some 25 })
unfolding read
fresh_read = refl

read-Returns_example : Returns (read (natural 0, natural 20) turns arguments new_slot)
read-Returns_example = read-Returns 0 20 turns arguments query new_slot query_lem refl

abbrev calls : List Call
calls = offers (observation 1) ∷ reads ReadOutcome.ok ∷ offers (observation 2) ∷ []

slot_is_register_example :
    let s = apply_all calls new_slot in
    (s.latest ≡ (if has_close calls then none else last_offered none calls))
    × (s.is_closed ≡ has_close calls)
    × (s.offers_accepted ≡ (if ltb 0 (offers_before calls) then 1 else 0))
    × (s.offers_replaced ≡ offers_before calls - 1)
    × (s.offers_closed ≡ offers_after calls)
    × ((r : ReadOutcome) → reads_of r s ≡ count_reads r calls)
slot_is_register_example = slot_is_register calls
