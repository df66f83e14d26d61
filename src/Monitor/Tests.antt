-- ===== src/Monitor/Tests.antt =====
-- A run of the monitor over three windows, with numbers for scores and toy digests.
use teecam.Prelude.{
  ℕ, ◌%◌, ◌≡◌, refl, arith, true, ◌&&◌, ◌==◌, if◌then◌else◌, leb, some, List, [], ◌∷◌, ◌++◌, length,
  count_if, Bytes, Text, codes, lookup, text_eq, Result, ok,
}
use teecam.Audit.Hex.{hex}
use teecam.Audit.Toy.{toy_crypto}
use teecam.Audit.Store.{State, new_state, verify_chain, Record}
use teecam.Monitor.Optee.{Program, zero_text}
use teecam.Monitor.Batch.{Detector, WindowRow, Alert, pick, monitor_batch, local_backend}
use teecam.Monitor.Accepted.{monitor_batch-accepted}
use teecam.Monitor.Returns.{IsScored, is_above, monitor_batch-returns}

abbrev toy_json : Alert ℕ → Bytes
toy_json a = a.run_id ++ ((a.window_start_ns % 256) ∷ [])

abbrev toy_detector : Detector (WindowRow ℕ) ℕ
toy_detector = record {
  features = codes "rate" ∷ [];
  score = λ row. ok row.window_start_ns;
  threshold = 5;
  le = leb;
}

abbrev window : ℕ → WindowRow ℕ
window start = record {
  run_id = codes "run-1";
  scenario = codes "steady";
  window_start_ns = start;
  columns = (codes "rate", start) ∷ [];
}

abbrev three_windows : List (WindowRow ℕ)
three_windows = window 3 ∷ window 7 ∷ window 9 ∷ []

abbrev empty_alert : Alert ℕ
empty_alert = record {
  run_id = [];
  scenario = [];
  window_start_ns = 0;
  score = 0;
  threshold = 0;
  model_hash = [];
  features = [];
}

-- A disk that takes every write.
abbrev saved : State → Result (Unit {0})
saved st = ok tt

abbrev written : Record (Alert ℕ) → Result (Unit {0})
written line = ok tt

window-IsScored :
    (start : ℕ) → IsScored toy_crypto toy_json saved written empty_alert toy_detector (window start)
unfolding pick lookup text_eq
window-IsScored start = record {
  scored = (start, refl);
  picked = ((codes "rate", start) ∷ [], refl);
}

monitor_batch-accepted_example :
    let b =
      (monitor_batch
        (local_backend toy_crypto toy_json saved)
        written
        toy_detector
        (codes "model")
        three_windows
        (new_state (1 ∷ []))).1 in
    verify_chain toy_crypto toy_json empty_alert b.audit b.lines true ≡ ok true
monitor_batch-accepted_example =
    monitor_batch-accepted toy_crypto toy_json saved written (λ st. refl) (λ line. refl)
      toy_detector empty_alert (1 ∷ []) (codes "model") three_windows (omega arith)

monitor_batch-returns_example :
    let (r, b) =
      monitor_batch
        (local_backend toy_crypto toy_json saved)
        written
        toy_detector
        (codes "model")
        three_windows
        (new_state (1 ∷ [])) in
    (r
      ≡ ok (
        3,
        count_if
            (is_above toy_crypto toy_json saved written empty_alert toy_detector)
            three_windows,
        hex (toy_crypto.sha256 (codes "model")),
      ))
    × (length b.lines
        ≡ count_if
            (is_above toy_crypto toy_json saved written empty_alert toy_detector)
            three_windows)
monitor_batch-returns_example =
    monitor_batch-returns toy_crypto toy_json saved written empty_alert toy_detector (λ st. refl)
      (λ line. refl) (1 ∷ []) (codes "model") three_windows
      (window-IsScored 3, (window-IsScored 7, (window-IsScored 9, tt))) (omega arith)

-- A program that knows a chain of two receipts,.
abbrev first_hash : Text
first_hash = hex (toy_crypto.sha256 (codes "first"))

abbrev second_hash : Text
second_hash = hex (toy_crypto.sha256 (codes "second"))

abbrev toy_program : Program
toy_program = record {
  prints_valid = λ f.
      if f.sequence == 1
      then text_eq f.previous_head zero_text && text_eq f.alert_hash first_hash
      else text_eq f.previous_head first_hash && text_eq f.alert_hash second_hash;
  get_head = some (record { sequence = 2; head = second_hash; model_hash = zero_text });
}

-- An alert with a mark that its canonical form leaves out, as the order of the keys of a dict.
abbrev unmarked : ℕ × Bytes → Bytes
unmarked alert = alert.1

abbrev two_records : ℕ → List (Record (ℕ × Bytes))
two_records mark =
    record {
      alert = some (mark, codes "first");
      receipt = some (record {
        sequence = some 1;
        previous_head = some zero_text;
        alert_hash = some first_hash;
        model_hash = some zero_text;
        head = some first_hash;
      });
    }
    ∷ record {
      alert = some (mark, codes "second");
      receipt = some (record {
        sequence = some 2;
        previous_head = some first_hash;
        alert_hash = some second_hash;
        model_hash = some zero_text;
        head = some second_hash;
      });
    }
    ∷ []
