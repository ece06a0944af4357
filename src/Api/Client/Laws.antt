-- ===== src/Api/Client/Laws.antt =====
-- The theorems on the calls of web/src/lib/api.ts.
use github_action_runners_mu.Prelude.{
  String, ◌≡◌, refl, Bool, true, Option, none, some, arith, text_dec, truthy, if_rule,
}
use github_action_runners_mu.Api.Types.{AddRunnerPayload, UpdateRunnerPayload, Settings}
use github_action_runners_mu.Api.Client.{
  Request, Fetched, Reason, Settled, error_body, or_fallback, done_or_throw, done_or_throw_named,
  add_runner, update_runner, remove_runner, update_settings, response, network_error, fulfilled,
  rejected,
}

-- A failed call has an Error with a message.
abbrev pub HasMessage : Settled (Unit {0}) → Type 0
HasMessage (fulfilled _) = Unit
HasMessage (rejected (Reason.error m runner_name)) = truthy m ≡ true
HasMessage (rejected Reason.other) = ⊥

-- The browser says why the network failed.
abbrev pub IsExplained : Fetched (Unit {0}) → Type 0
IsExplained (response res) = Unit
IsExplained (network_error m) = truthy m ≡ true

or_fallback-truthy :
    (o : Option String) (m : String) → truthy m ≡ true → truthy (or_fallback o m) ≡ true
or_fallback-truthy none m h = h
or_fallback-truthy (some t) m h = ground arith

done_or_throw-HasMessage :
    (m : String) (a : Fetched (Unit {0}))
    → truthy m ≡ true
    → IsExplained a
    → HasMessage (done_or_throw m a)
unfolding done_or_throw
done_or_throw-HasMessage m (network_error t) h k = k
done_or_throw-HasMessage m (response res) h k =
    if_rule HasMessage res.is_ok (λ _. tt)
      (λ _. or_fallback-truthy (error_body res.error_json).error m h)

done_or_throw_named-HasMessage :
    (m : String) (a : Fetched (Unit {0}))
    → truthy m ≡ true
    → IsExplained a
    → HasMessage (done_or_throw_named m a)
unfolding done_or_throw_named
done_or_throw_named-HasMessage m (network_error t) h k = k
done_or_throw_named-HasMessage m (response res) h k =
    if_rule HasMessage res.is_ok (λ _. tt)
      (λ _. or_fallback-truthy (error_body res.error_json).error m h)

-- Whatever the backend answers, also with a body that is no JSON, a call that changes something and
-- fails does so with an Error whose message is not empty, if the network's own failures have one.
pub changes-HasMessage :
    (fetch : Request → Fetched (Unit {0})) (payload : AddRunnerPayload)
    (changes : UpdateRunnerPayload) (name : String) (force : Bool) (settings : Settings)
    → ((q : Request) → IsExplained (fetch q))
    → HasMessage (add_runner fetch payload)
      × HasMessage (update_runner fetch name changes)
      × HasMessage (remove_runner fetch name force)
      × HasMessage (update_settings fetch settings)
unfolding add_runner update_runner remove_runner update_settings text_dec
changes-HasMessage fetch payload changes name force settings h = (
  done_or_throw_named-HasMessage "Failed to add runner" _ refl (h _),
  done_or_throw_named-HasMessage "Failed to update runner" _ refl (h _),
  done_or_throw-HasMessage "Failed to remove runner" _ refl (h _),
  done_or_throw-HasMessage "Failed to update settings" _ refl (h _),
)
