-- ===== src/Tests/Simulations.antt =====
-- A run of the simulator in which one answer was given up and one came whole.
use deeperseek.Prelude.{String, true, false, some, [], ◌∷◌, ◌≡◌, refl, lookup}
use deeperseek.Simload.Overlaps.{interleaves-is_interleaved, is_interleaved}
use deeperseek.Simload.Passes.{AreFine, AreApart, check_passes}
use deeperseek.Simload.{
  AckedFrag, RequesterResult, World, interleaves, has_repeat, order_after, check, check_results,
  check_result, check_completed, completed_in, check_content, check_acked, join_acked,
}

abbrev by : String → String → AckedFrag
by session text = record { session = session; text = text; at_time = 4 }

abbrev whole : RequesterResult
whole = record {
  request_id = "req_1";
  question = "why?";
  content = "because so";
  delta_runes = 7 ∷ 3 ∷ [];
  done = true;
  cancelled = false;
  stalled = false;
  err_text = "";
  created_at = 1;
  first_delta = some 3;
  max_gap = 2;
  blocking = false;
}

abbrev simulated : World
simulated = record {
  use_fallback = false;
  slow_reader_mode = false;
  acked = ("req_1", by "ses_1" "because" ∷ by "ses_1" " so" ∷ []) ∷ [];
  results = whole ∷ record whole { request_id = ""; cancelled = true; done = false } ∷ [];
  probes = [];
}

clean-simulated : (check simulated).violations ≡ []
unfolding check check_results check_result check_completed completed_in check_content check_acked
    join_acked interleaves has_repeat order_after lookup
clean-simulated = refl

check_passes_example : AreFine simulated simulated.results × AreApart simulated.acked
check_passes_example = check_passes simulated clean-simulated

-- The first session commits again after another one.
interleaves-is_interleaved_example :
    interleaves (by "ses_1" "a" ∷ by "ses_2" "b" ∷ by "ses_1" "c" ∷ [])
    ≡ is_interleaved (by "ses_1" "a" ∷ by "ses_2" "b" ∷ by "ses_1" "c" ∷ [])
interleaves-is_interleaved_example =
    interleaves-is_interleaved (by "ses_1" "a" ∷ by "ses_2" "b" ∷ by "ses_1" "c" ∷ [])
