-- ===== src/Tests/Edges.antt =====
-- The theorems on the pacer, the client and the command line, applied.
use gdrive_turbo_copy.Prelude.{
  ◌↔◌, ◌<>◌, ℕ, ◌+◌, ◌-◌, ◌*◌, ◌/◌, ◌^◌, ◌≡◌, refl, String, true, false, none, some, List, [], ◌∷◌,
  arith, ltb,
}
use gdrive_turbo_copy.Prelude.Int.{pos, of_ℤ, pos_part}
use gdrive_turbo_copy.Models.Config.{checksum}
use gdrive_turbo_copy.Retry.Loop.{Reply, reply, RetryPolicy, Hooks}
use gdrive_turbo_copy.Concurrency.{copy, Controller}
use gdrive_turbo_copy.Concurrency
use gdrive_turbo_copy.Pacer.{AdaptivePacer, Numbers, Clock, adaptive, new_pacer, slow_down}
use gdrive_turbo_copy.Pacer.Laws.{Ordered, Paced}
use gdrive_turbo_copy.Pacer.Bounds.{
  Request, acquires, throttles, succeeds, serve_all, Bounded, serve_all-new_pacer,
  slow_down-speeds_up,
}
use gdrive_turbo_copy.Client.Queries.{read_quoted, read_quoted-escape}
use gdrive_turbo_copy.Client.{escape, Client, run, has_ended}
use gdrive_turbo_copy.Models.Config.Laws.{IsValid}
use gdrive_turbo_copy.Copier.Engine.{done}
use gdrive_turbo_copy.Client.Laws.{Places, run-Places}
use gdrive_turbo_copy.Copier.Book.Frame.{books}
use gdrive_turbo_copy.Copier.Files.Effect.Budget.{InBudget}
use gdrive_turbo_copy.Cli.{Args, logged_in, config_from_args, main}
use gdrive_turbo_copy.Cli.Laws.{main-InBudget, main-invalid}
use gdrive_turbo_copy.Tests.{faithful, config}

-- Hundredths, rounded down.
abbrev hundredths : Numbers
hundredths = record {
  Number = ℕ;
  ltb = ltb;
  add = λ a b. a + b;
  sub = λ a b. a - b;
  mul = λ a b. a * b / 100;
  div = λ a b. a * 100 / b;
  of_float = λ x. pos_part x.mantissa * 100 / 2 ^ x.exponent;
}

hundredths-Ordered : Ordered hundredths
hundredths-Ordered = record {
  asym = λ a b h. ground arith;
  trans = λ a b c h k. ground arith;
  one_up = refl;
  tenth_up = refl;
  halves = λ a h. ground arith;
  grows = λ a. ground arith;
  shrinks = λ a t h. ground arith;
}

-- A clock that a sleep moves on.
abbrev clock : Clock ℕ ℕ
clock = record { monotonic = λ w. (w, w); sleep = λ t w. w + t }

abbrev requests : List (Request hundredths hundredths-Ordered clock)
requests = throttles none ∷ succeeds ∷ acquires 5 100 refl ∷ []

abbrev after_requests : AdaptivePacer ℕ × ℕ
after_requests =
    serve_all hundredths hundredths-Ordered clock requests (new_pacer hundredths 900 100 0, 0)

serve_all-new_pacer_example :
    Bounded hundredths hundredths-Ordered clock 100 900 after_requests.0
    × Paced hundredths hundredths-Ordered after_requests.0
serve_all-new_pacer_example =
    serve_all-new_pacer hundredths hundredths-Ordered clock requests 900 100 0 0 refl

slow_down-speeds_up_example :
    ltb 50 (slow_down hundredths clock (new_pacer hundredths 50 100 0)).bucket.rate ≡ true
slow_down-speeds_up_example = slow_down-speeds_up hundredths hundredths-Ordered clock 50 100 0 refl

abbrev hooks : Hooks ℕ
hooks = record { uniform = λ x w. (x, w + 1); sleep = λ x w. w + 1; on_event = λ event w. w }

abbrev policy : RetryPolicy
policy = record { max_attempts = 8; base_delay = of_ℤ (pos 1); max_delay = of_ℤ (pos 64) }

abbrev controller : Controller
controller = Concurrency.new_controller (record {
  copy_workers = 4;
  list_workers = none;
  create_workers = none;
  log_workers = 1;
  metadata_workers = none;
  increase_after = 20;
})

abbrev client : Client ℕ ℕ
client = record {
  controller = some controller;
  pacer = some (adaptive (new_pacer hundredths 900 100 0));
  world = 0;
}

abbrev request : ℕ → Reply String × ℕ
request w = (reply "d1", w + 1)

run-Places_example :
    let out = run hundredths clock hooks policy 5 copy request client in
    Places hundredths clock copy
      (some controller)
      (has_ended hundredths clock out.0)
      out.1.controller
run-Places_example = run-Places hundredths clock copy hooks policy 5 request client

abbrev args : Args
args = record {
  source = config.source_link;
  dest = config.dest_link;
  workers = pos 4;
  max_size_gb = of_ℤ (pos 730);
  verify_mode = checksum;
  exclude = "tmp,.log";
  from_page = pos 0;
  to_page = pos 0;
  allow_name_only = false;
  dry_run = false;
  max_tps = of_ℤ (pos 9);
  no_preserve_metadata = false;
  ignore_default_visibility = false;
  keep_revision_forever = false;
  fast_list = true;
  skip_completed_folders = false;
}

main-InBudget_example :
    InBudget (config_from_args args) (books (main faithful 5 5 args logged_in "r" 0).1)
main-InBudget_example = main-InBudget faithful 5 5 args logged_in "r" 0

-- Arguments that ask for no worker.
abbrev idle_args : Args
idle_args = record args { workers = pos 0 }

main-invalid_example :
    ((main faithful 5 5 idle_args logged_in "r" 0).0 ≡ done 2)
    ↔ (IsValid (config_from_args idle_args) → ⊥)
main-invalid_example = main-invalid faithful 5 5 idle_args logged_in "r" 0

read_quoted-escape_example :
    read_quoted false (escape "it's" <> "'" <> " in parents") ≡ some ("it's", " in parents")
read_quoted-escape_example = read_quoted-escape "it's" " in parents"
