-- ===== src/Availability/RoutedTests.antt =====
-- A task that is routed after a quota failure was recorded.
use herdr_tools.Base.{
  ℕ, ◌-◌, ◌≡◌, ◌≢◌, refl, true, false, String, List, [], ◌∷◌, Option, some, none, leb,
  if◌then◌else◌, arith, inl, is_identifier,
}
use herdr_tools.Base.Dict.{put}
use herdr_tools.Routing.Tiers.{QualityTier, standard}
use herdr_tools.Routing.Points.{debug}
use herdr_tools.Routing.Judgment.{
  Numbers, number, text, judged, judge, is_rejected, judgment, judge_fields, intent_of, tier_of,
  distribution,
}
use herdr_tools.Routing.Ranking.{point_unavailable}
use herdr_tools.Routing.Chains.{Point, known_exhausted, unknown_status}
use herdr_tools.Routing.Route.{Input, Admission, contract, admitted, route_task}
use herdr_tools.Availability.Keys.{RunnerEntry, availability_key_for}
use herdr_tools.Availability.Log.{record_launch_failure, trusted}
use herdr_tools.Availability.Routed.{logged_gate, route_task-avoids}
use herdr_tools.Availability.Tests.{
  dates, dates-ReadsIso, dates-InRange, pi, key, key_named, overloaded, one_text, writes_line, good,
  file_after, recording, until_nine,
}

abbrev thousandths : Numbers
thousandths = record {
  Number = ℕ;
  is_probability = λ n. leb n 1000;
  complement = λ n. 1000 - n;
  larger = λ a b. if leb a b then b else a;
  at_most = leb;
  threshold = 800;
  sums_to_one = λ ns. true;
}

abbrev point : String → String → String → Point
point id provider model = record {
  id = id;
  provider = provider;
  runner = "pi";
  model = model;
  quota = record { provider = provider; billing_product = "b"; account = "a"; scope = "s" };
}

abbrev runners : String → Option RunnerEntry
runners kind = some pi

abbrev chains : QualityTier → List String
chains standard = "one" ∷ "two" ∷ []
chains _ = []

abbrev task : Input thousandths String
task = record {
  response = record {
    done_when_verifiable = some (number 900);
    transport = false;
    component = none;
    intent = some (record { value = text "debug"; confidence = number 700; probabilities = none });
    tier = some (record { value = text "standard"; confidence = number 600; probabilities = none });
  };
  catalog = record {
    points = point "one" "y" "m1" ∷ point "two" "z" "m2" ∷ [];
    tier_chains = some chains;
    has_runner = λ r. true;
  };
  tier = none;
  recovery = none;
  operating_point = none;
  has_gate = true;
  availability = logged_gate dates one_text true trusted true runners 7 file_after;
  compile = λ p. contract p.id;
}

abbrev verdict : Admission thousandths String
verdict = record {
  workload_floor = standard;
  effective_start = standard;
  chain = "two" ∷ [];
  selected = point "two" "z" "m2";
  configuration = "two";
  exclusions = record { id = "one"; provider = "y"; reasons = point_unavailable ∷ [] } ∷ [];
  statuses = ("one", known_exhausted) ∷ ("two", unknown_status) ∷ [];
}

judged_standard :
    judge thousandths task.response
    ≡ judged 900
        (record { value = debug; confidence = 700; probabilities = none })
        (record { value = standard; confidence = 600; probabilities = none })
unfolding judge is_rejected judgment judge_fields intent_of tier_of distribution is_identifier
judged_standard = refl

routed_past : route_task task ≡ admitted verdict
unfolding route_task logged_gate record_launch_failure put
routed_past = refl

route_task-avoids_example : availability_key_for "m2" pi ≢ some key
route_task-avoids_example =
    route_task-avoids task chains 900
      (record { value = debug; confidence = 700; probabilities = none })
      (record { value = standard; confidence = 600; probabilities = none }) verdict dates one_text
      "m1" pi overloaded 5 good [] key 7 9 runners pi dates-ReadsIso dates-InRange (inl refl)
      writes_line key_named recording until_nine (omega arith) refl refl judged_standard routed_past
      refl
