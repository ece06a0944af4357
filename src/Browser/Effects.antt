-- ===== src/Browser/Effects.antt =====
-- What a handler does besides setting state: the notifications of `toast`, and navigation.
use github_action_runners_mu.Prelude.{String}

pub data Toast : Type 0 where
  success error info : String → Toast
