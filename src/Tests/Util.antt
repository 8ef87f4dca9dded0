-- ===== src/Tests/Util.antt =====
-- Runs of the retry loop and of the string functions.
use aws_iot_device_client.Base.{
  ℕ, suc, ◌≡◌, refl, arith, Bool, true, false, List, [], ◌∷◌, ◌++◌, map, none, some, Text, text,
  leb,
}
use aws_iot_device_client.Base.Int.{pos, negsuc}
use aws_iot_device_client.Util.Retry.{
  ExponentialRetryConfig, Action, attempt, sleep, complete, Finished, exponential_backoff,
}
use aws_iot_device_client.Util.Retry.Limit.{Course, backoff-Course}
use aws_iot_device_client.Util.StringUtils.{split_string_by_comma, replace_all, backslash, comma}
use aws_iot_device_client.Util.StringUtils.Commas.{join, split-join_unescaped}

-- The function succeeds at its third call; the world counts the calls.
abbrev third_time : ℕ → Bool × ℕ
third_time n = (leb 2 n, suc n)

abbrev no_wait : ℕ → ℕ → ℕ
no_wait d n = n

abbrev config : ExponentialRetryConfig ℕ
config = record {
  starting_backoff_millis = 10;
  max_backoff_millis = 15;
  max_retries = pos 4;
  need_stop_flag = none;
}

abbrev same : ℕ → ℕ
same n = n

abbrev call : Finished ℕ
call = record {
  world = 3;
  successful = true;
  actions = attempt false ∷ sleep 10 ∷ attempt false ∷ sleep 15 ∷ attempt true ∷ complete ∷ [];
}

backoff-Course_example :
    (r : Finished ℕ) × (actions : List Action) × (exponential_backoff third_time no_wait config 5
        same 0
      ≡ some r)
    × (r.actions ≡ actions ++ complete ∷ [])
    × Course 15 false 4 10 actions r.successful
backoff-Course_example = backoff-Course third_time no_wait config 4 refl 5 same 0 (omega arith)

abbrev forever : ExponentialRetryConfig ℕ
forever = record config { max_retries = negsuc 0 }

abbrev tokens : List Text
tokens = text "a,b" ∷ text "c" ∷ text ",,d" ∷ []

split-join_unescaped_example :
    map
      (λ t. replace_all t (backslash ∷ comma ∷ []) (comma ∷ []))
      (split_string_by_comma (join tokens))
    ≡ tokens
split-join_unescaped_example =
    split-join_unescaped tokens ((λ e. cc, refl), ((λ e. cc, refl), ((λ e. cc, refl), tt)))
