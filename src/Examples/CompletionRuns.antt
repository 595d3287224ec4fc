-- ===== src/Examples/CompletionRuns.antt =====
-- A move of an image to another file system, and the theorems about it.
use Prim.Native.String.{String}
use image_processor.Base.{ℕ, zero, suc, ◌≡◌, refl, none, some, [], ◌∷◌}
use image_processor.Types.{Bytes}
use image_processor.Base.{take}
use image_processor.Types.{archive, published}
use image_processor.Ledger.Cleanup.{record_cleanup_intent}
use image_processor.Ledger.Sound.{Sound}
use image_processor.Ledger.History.{open_new, run}
use image_processor.Ledger.History.Invariant.{run-open_new-Sound}
use image_processor.Examples.LedgerRuns.{clock, digest, life, intent}
use image_processor.Chars.{is_space, lower_code}
use image_processor.Completion.Plan.{
  CompletionPolicy, named, plan, policy_action, coerce_action, lowers_to, underscored,
  safe_relative, forward, strip_left, strip_right, parts_of, split_slash, checked_parts, target_of,
  required_dir, under,
}
use image_processor.Completion.Inside.{Holds, Planned, plan-Planned}
use image_processor.Completion.Apply.{Completer, Codec, apply, reconcile}
use image_processor.Completion.Replies.{Answered, reconcile-Reported}
use image_processor.Completion.Told.{Begun, apply-Begun}
use image_processor.Completion.{FilePath, path_eq, dir_eq, suffix, hex_part, after_colon}
use image_processor.Completion.Disk.{
  Fault, works, crosses, Disk, done, put, digest_of, replace, copy, remove, touch_dir, ran,
  ran_copy, ran_rename, on_content,
}
use image_processor.Completion.Install.{
  copied, expected_hex, install, install_once, install_free, move_verified, move, moved_or_copied,
  copy_across, verify_copy, settle_copy, report_move,
}
use image_processor.Completion.Rules.{After}
use image_processor.Completion.Safe.{Safe}
use image_processor.Completion.Installed.{Fine, install-Fine}

abbrev from : FilePath
from = record { parent = "in" ∷ []; name = "a.png" }

abbrev to : FilePath
to = record { parent = "out" ∷ []; name = "a.png" }

abbrev sha256 : Bytes → String
sha256 [] = "00"
sha256 _ = "ab"

-- The rename finds another file system; everything else works.
abbrev faults : ℕ → Fault
faults (suc zero) = crosses
faults _ = works

abbrev start : Disk
start = record { files = put from (some (7 ∷ [])) (λ _. none); operations = 0 }

moved :
    (install faults sha256 from to (some "sha256:ab") suffix start).0
    ≡ done (record { path = to; sha256 = "ab"; how = copied })
unfolding path_eq dir_eq hex_part after_colon digest_of replace copy remove touch_dir ran ran_copy
    ran_rename on_content install install_once install_free move_verified move moved_or_copied
    copy_across verify_copy settle_copy report_move
moved = refl

install-Fine_example :
    After
      (Safe sha256 from start.files)
      (Fine faults sha256 from start.files (expected_hex (some "sha256:ab")))
      (install faults sha256 from to (some "sha256:ab") suffix start)
unfolding hex_part after_colon
install-Fine_example =
    install-Fine faults sha256 from to (some "sha256:ab") suffix start (λ e. cc) refl

abbrev policy : CompletionPolicy
policy = record {
  source_root = "in" ∷ [];
  archive_dir = some ("out" ∷ []);
  failed_dir = none;
  on_success = named "Archive";
  on_invalid_input = named "retain-in-place";
  on_operational_failure = named "retain";
  on_publish_failure = named "retain";
}

planned : Holds (λ i. i.target ≡ some to) (plan published "./a.png" "ab" policy [])
unfolding plan policy_action coerce_action lowers_to lower_code underscored safe_relative forward
    strip_left strip_right is_space parts_of split_slash checked_parts target_of required_dir under
planned = refl

plan-Planned_example : Holds (Planned policy) (plan published "b\\../a.png" "ab" policy [])
plan-Planned_example = plan-Planned published "b\\../a.png" "ab" policy []

abbrev codec : Codec
codec = record {
  sha256 = sha256;
  error_record = λ i l p. [];
  bundle_manifest = λ i p files. [];
  paths = λ i. record {
    action = archive;
    source = from;
    source_sha256 = "ab";
    target = some to;
    members = [];
  };
  observed_text = λ o. 90;
  failure_text = λ e. 91;
}

-- The result of the image is confirmed, and the image still in its place.
abbrev completer : Completer
completer = record {
  ledger = run digest (open_new 1000 clock) (take 6 life);
  disk = start;
  on_collision = suffix;
}

completer-Sound : Sound completer.ledger
completer-Sound =
    run-open_new-Sound digest 1000 clock (take 6 life)
      (tt, ((λ e. cc), ((λ e. cc), ((λ e. cc), (tt, (tt, tt))))))

apply-Begun_example :
    Begun faults codec intent none completer
      (record_cleanup_intent intent completer.ledger)
      (apply faults codec intent none completer)
apply-Begun_example = apply-Begun faults codec intent none completer

reconcile-Reported_example :
    Answered faults codec intent none completer.ledger.closed completer
      (reconcile faults codec intent none completer)
reconcile-Reported_example = reconcile-Reported faults codec intent none completer
