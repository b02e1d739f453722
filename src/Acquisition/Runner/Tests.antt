-- ===== src/Acquisition/Runner/Tests.antt =====
-- A plan of one request, run once and polled twice.
use geopilot_hvac.Prelude.{
  ◌≡◌, refl, ◌+◌, false, ℤ, pos, none, List, [], ◌∷◌, ◌++◌, length, Text, text, ok, ◌==◌, is_blank,
  lookup, ◌+ℤ◌, ◌*ℤ◌, ◌-ℤ◌,
}
use geopilot_hvac.Prelude.Decimal.{show_int}
use geopilot_hvac.Datetime.{utc, before, epoch_microseconds}
use geopilot_hvac.Domain.Observation.{Measurement, measurement}
use geopilot_hvac.Ingestion.{
  ingest, store, find_sensor, normalize, normalize_unit, normalize_without_sensor,
  normalize_temperature, measurement_id, raw_measurement,
}
use geopilot_hvac.Ingestion.Tests.{whole_numbers}
use geopilot_hvac.Decoder.{decode, decode_words}
use geopilot_hvac.Acquisition.{
  successful_measurements, ingest_raw_measurements, acquire_one, settle, stamped, context_from_raw,
  acquisition_context, register_id_of,
}
use geopilot_hvac.Acquisition.Stored.{ingest-IsStored}
use geopilot_hvac.Acquisition.Simulator.{
  ServiceFault, read_payload, acquire, read_decode_and_ingest, decode_and_ingest, ingest_decoded,
  pipeline_failure,
}
use geopilot_hvac.Acquisition.Simulator.Tests.{
  payloads, two_definitions, two_results, read_fake, ingest_fake,
}
use geopilot_hvac.Acquisition.Runner.{
  AcquisitionPlan, AcquisitionRunReport, run, run_requests, run_report, success_count,
  failure_count, total_count,
}
use geopilot_hvac.Acquisition.Runner.Counts.{run_stored}
use geopilot_hvac.Acquisition.Runner.Reads.{acquire-IsKeeping, read_payload_silent}
use geopilot_hvac.Acquisition.Runner.Polling.{
  PollingPlan, PollingReport, poll, poll_cycles, cycle_report, polling_report,
}
use geopilot_hvac.Acquisition.Runner.Totals.{IsPolled, poll_ok}
use geopilot_hvac.Acquisition.Runner.Counts.{IsKeeping-last}
use geopilot_hvac.Acquisition.Stored.{put_last}

abbrev plan : AcquisitionPlan ℤ (List (Measurement ℤ)) (ServiceFault Text)
plan = record {
  plan_id = text "installation";
  requests =
      record {
        request_id = text "modbus";
        profile_id = none;
        executor =
            acquire whole_numbers (λ high low. pos 0) ingest_fake (λ s. utc 12) read_fake none
              two_definitions;
      }
      ∷ [];
}

abbrev report : AcquisitionRunReport ℤ
report = record {
  plan_id = text "installation";
  started_at = utc 12;
  completed_at = utc 12;
  results = two_results;
}

run_stored_example :
    ((run (λ s. utc 12) plan []).1 ≡ [] ++ successful_measurements report.results)
    × (length (run (λ s. utc 12) plan []).1 ≡ 0 + success_count report)
    × (total_count report ≡ success_count report + failure_count report)
    × (before report.completed_at report.started_at ≡ false)
unfolding run run_requests run_report acquire read_decode_and_ingest decode_and_ingest
    ingest_decoded pipeline_failure read_payload decode decode_words ingest_raw_measurements
    acquire_one settle stamped context_from_raw acquisition_context register_id_of ingest store
    find_sensor normalize normalize_unit normalize_without_sensor normalize_temperature
    measurement_id measurement epoch_microseconds raw_measurement is_blank ◌==◌ lookup show_int ◌+ℤ◌
    ◌*ℤ◌ ◌-ℤ◌
run_stored_example =
    run_stored (λ s. s) (λ s. utc 12) plan [] report
      (
        IsKeeping-last (λ s. s)
            (acquire whole_numbers (λ high low. pos 0) ingest_fake (λ s. utc 12) read_fake none
              two_definitions)
            (acquire-IsKeeping whole_numbers (λ high low. pos 0) ingest_fake (λ s. utc 12) read_fake
              none put_last (λ s. s) (λ raw s. ingest-IsStored whole_numbers none (utc 11) raw s)
              (read_payload_silent (λ id s. s) (λ s. s) (λ id s. refl) payloads) two_definitions),
        tt,
      )
      refl

-- the same results in every cycle
abbrev polled_plan : AcquisitionPlan ℤ (List (Measurement ℤ)) Text
polled_plan = record {
  plan_id = text "installation";
  requests =
      record { request_id = text "modbus"; profile_id = none; executor = λ s. (ok two_results, s) }
      ∷ [];
}

abbrev polling : PollingPlan ℤ (List (Measurement ℤ)) Text
polling = record {
  plan_id = text "polling";
  cycles =
      record { cycle_id = text "first"; acquisition_plan = polled_plan }
      ∷ record { cycle_id = text "second"; acquisition_plan = polled_plan }
      ∷ [];
}

abbrev polled : PollingReport ℤ
polled = record {
  plan_id = text "polling";
  started_at = utc 1;
  completed_at = utc 1;
  cycle_reports =
      record { cycle_id = text "first"; run_report = report }
      ∷ record { cycle_id = text "second"; run_report = report }
      ∷ [];
}

poll_ok_example :
    IsPolled
      (λ s. utc 1)
      (λ s. utc 12)
      polling
      []
      polled
      (poll (λ s. utc 1) (λ s. utc 12) polling []).1
unfolding poll poll_cycles cycle_report polling_report run run_requests run_report is_blank
poll_ok_example = poll_ok (λ s. utc 1) (λ s. utc 12) polling [] polled refl
