-- ===== src/Engine/Http/Tests.antt =====
-- Runs of a step.
use forge_gate.Base.{ℕ, suc, true, none, some, arith}
use forge_gate.Base.Int.{pos}
use forge_gate.Js.Json.{null, text, object, no_fields, field, object_fields}
use forge_gate.Step.Timeout.{not_a_number}
use forge_gate.Limits.Memory.{memory, memory_counts, memory_expires, memory_ttls}
use forge_gate.Engine.Database.{Step}
use forge_gate.Engine.Http.{StepContext, HttpRequest, HttpAnswer, call_failed}
use forge_gate.Engine.Http.Call.{Platform, Limiters, Outside, execute_step}
use forge_gate.Engine.Http.Slots.{IsCharged, charge_keys, execute_step-IsCharged}

abbrev no_platform : Platform
no_platform = record {
  hostname = λ url. none;
  date_parse = λ date. none;
  number_of = λ s. not_a_number;
}

-- The network counts the calls, and every call fails.
abbrev broken : HttpRequest → ℕ → HttpAnswer × ℕ
broken request calls =
    (call_failed (record { response = none; code = some "ECONNRESET"; message = none }), suc calls)

abbrev both : Limiters
both = record {
  rate = some (record {
    global_limit = some (record { limit = 5; window_seconds = 60 });
    provider_limits = λ p. none;
    tenant_provider_limits = λ t p. none;
    step_limits = λ id. none;
  });
  concurrency = some (record {
    global_max_concurrency = some 2;
    tenant_limits = λ t. some 1;
    provider_limits = λ p. none;
    tenant_provider_limits = λ t p. none;
    step_limits = λ id. none;
  });
}

abbrev context : StepContext
context = record {
  tenant_id = "acme";
  execution_id = "e1";
  step_id = "s1";
  correlation_id = "corr-e1";
}

abbrev web_step : Step
web_step = record {
  id = "s1";
  step_order = 1;
  action_type = "http_request";
  config = object (field "url" (text "https://example.com") no_fields);
}

abbrev start : Outside (memory true) ℕ broken no_platform both "lease" 1000
start = record {
  redis = λ k. pos 0;
  metrics = record {
    acquired_total = 0;
    rejected_total = 0;
    released_total = 0;
    deferred_total = 0;
  };
  net = 0;
}

execute_step-IsCharged_example :
    IsCharged
      (memory true)
      (memory_counts true)
      memory_expires
      memory_ttls
      ℕ
      broken
      no_platform
      both
      "lease"
      1000
      (charge_keys no_platform both.rate context (object_fields web_step.config))
      start.redis
      (execute_step
        (memory true)
        ℕ
        broken
        no_platform
        both
        "lease"
        1000
        context
        "now"
        web_step
        null
        start).1.redis
execute_step-IsCharged_example =
    execute_step-IsCharged (memory true) (memory_counts true) memory_expires memory_ttls ℕ broken
      no_platform both "lease" 1000 context "now" web_step null start (λ k. omega arith)
