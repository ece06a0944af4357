-- ===== src/Session/Query.antt =====
-- The query of the address that `handleLogin` of web/src/App.tsx goes to.
use Prim.Native.String.{[], ◌∷◌}
use text.Mathlib.TextLemmas.{cons-append, nil-append, append_assoc}
use github_action_runners_mu.Prelude.{
  ℕ, zero, suc, ◌/◌, ◌%◌, Char, code, String, ◌<>◌, Bool, true, false, ◌&&◌, not, List, ◌≡◌, refl,
  ap, ◌∙◌, arith, if_rule, ltb,
}
use github_action_runners_mu.Prelude.Text.{code_is, split}
use github_action_runners_mu.Prelude.Text.Uri.{
  is_unreserved, nth, hex, escape, escape_code, encode_uri_component,
}
use github_action_runners_mu.Session.{redirect_uri, handle_login}

-- No `&` in a text.
abbrev pub no_amp : String → Bool
no_amp [] = true
no_amp (c ∷ s) = not (code_is b'&' c) && no_amp s

no_amp-append : (s t : String) → no_amp (s <> t) ≡ (no_amp s && no_amp t)
no_amp-append [] t = rw nil-append refl
no_amp-append (c ∷ s) t = rw cons-append (ground (arith, no_amp-append s t))

nth-no_amp :
    (d : Char) (s : String) (i : ℕ)
    → code_is b'&' d ≡ false
    → no_amp s ≡ true
    → code_is b'&' (nth d s i) ≡ false
unfolding nth
nth-no_amp d [] i k h = k
nth-no_amp d (c ∷ s) zero k h = ground arith
nth-no_amp d (c ∷ s) (suc i) k h = nth-no_amp c s i (ground arith) (ground arith)

hex-no_amp : (n : ℕ) → code_is b'&' (hex n) ≡ false
hex-no_amp n = nth-no_amp "0" "0123456789ABCDEF" n refl refl

escape-no_amp : (b : ℕ) → no_amp (escape b) ≡ true
unfolding escape
escape-no_amp b =
    rw
      (
        no_amp-append "%" (hex (b / 16 % 16) ∷ hex (b % 16) ∷ []),
        hex-no_amp (b / 16 % 16),
        hex-no_amp (b % 16),
      )
      refl

both-no_amp : (s t : String) → no_amp s ≡ true → no_amp t ≡ true → no_amp (s <> t) ≡ true
both-no_amp s t h k = ground (arith, no_amp-append s t)

escape_code-no_amp : (n : ℕ) → no_amp (escape_code n) ≡ true
unfolding escape_code
escape_code-no_amp n =
    if_rule (λ s. no_amp s ≡ true) (ltb n 128) (λ _. escape-no_amp n)
      (λ _.
        if_rule (λ s. no_amp s ≡ true) (ltb n 2048) (λ _. search (both-no_amp, escape-no_amp))
          (λ _.
            if_rule (λ s. no_amp s ≡ true) (ltb n 65536) (λ _. search (both-no_amp, escape-no_amp))
              (λ _. search (both-no_amp, escape-no_amp))))

unreserved-no_amp : (c : Char) → is_unreserved c ≡ true → no_amp (c ∷ []) ≡ true
unreserved-no_amp c h = ground arith

encode-no_amp : (s : String) → no_amp (encode_uri_component s) ≡ true
unfolding encode_uri_component
encode-no_amp [] = refl
encode-no_amp (c ∷ s) =
    both-no_amp _ (encode_uri_component s)
      (if_rule (λ (t : String). no_amp t ≡ true) (is_unreserved c) (unreserved-no_amp c)
        (λ _. escape_code-no_amp (code c)))
      (encode-no_amp s)

-- A text without the separator stands in front of the first one.
split-before :
    (s t : String) → no_amp s ≡ true → split b'&' (s <> ("&" <> t)) ≡ List.◌∷◌ s (split b'&' t)
unfolding split
split-before [] t h = rw (nil-append ("&" <> t), cons-append "&" "" t, nil-append t) refl
split-before (c ∷ s) t h =
    rw (cons-append c s ("&" <> t), split-before s t (ground arith)) (ground arith)

split-whole : (s : String) → no_amp s ≡ true → split b'&' s ≡ List.◌∷◌ s List.[]
unfolding split
split-whole [] h = refl
split-whole (c ∷ s) h = rw (split-whole s (ground arith)) (ground arith)

-- The texts of the query, grouped by its parameters.
regroup :
    (s h p k c amp r u t : String)
    → s <> (h <> (p <> (k <> (c <> ((amp <> r) <> (u <> t))))))
      ≡ (s <> (h <> (p <> (k <> c)))) <> (amp <> ((r <> u) <> t))
regroup s h p k c amp r u t = simp append_assoc

abbrev parameters : String → String → String → List String
parameters a b c = List.◌∷◌ a (List.◌∷◌ b (List.◌∷◌ c List.[]))

-- Whatever the origin of the page is, the address of the sign-in has three parameters: the client,
-- the address to come back to, and the scope, if the host and the client's identifier have no `&`.
pub handle_login-parameters :
    (origin host client_id : String)
    → no_amp host ≡ true
    → no_amp client_id ≡ true
    → split b'&' (handle_login origin host client_id)
      ≡ parameters
          ("https://" <> (host <> ("/login/oauth/authorize?" <> ("client_id=" <> client_id))))
          ("redirect_uri=" <> encode_uri_component (redirect_uri origin host))
          "scope=repo%20admin:org"
unfolding handle_login
handle_login-parameters origin host client_id h c =
    let uri = encode_uri_component (redirect_uri origin host) in
    let first =
      "https://" <> (host <> ("/login/oauth/authorize?" <> ("client_id=" <> client_id))) in
    let second = "redirect_uri=" <> uri in
    let e : handle_login origin host client_id
        ≡ first <> ("&" <> (second <> ("&" <> "scope=repo%20admin:org"))) =
      regroup "https://" host "/login/oauth/authorize?" "client_id=" client_id "&" "redirect_uri="
        uri "&scope=repo%20admin:org" in
    let front =
      both-no_amp "/login/oauth/authorize?" ("client_id=" <> client_id) refl
        (both-no_amp "client_id=" client_id refl c) in
    rw e (
      split-before first (second <> ("&" <> "scope=repo%20admin:org")) (
        both-no_amp "https://" (host <> ("/login/oauth/authorize?" <> ("client_id=" <> client_id)))
          refl
          (both-no_amp host ("/login/oauth/authorize?" <> ("client_id=" <> client_id)) h front))
      ∙ ap (List.◌∷◌ first) (
          split-before second "scope=repo%20admin:org"
            (both-no_amp "redirect_uri=" uri refl (encode-no_amp (redirect_uri origin host)))
          ∙ ap (List.◌∷◌ second) (split-whole "scope=repo%20admin:org" refl)))
