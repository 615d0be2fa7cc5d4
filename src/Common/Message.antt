-- ===== src/Common/Message.antt =====
-- `error.message`, of every class of exception that the code throws, and the search in it.
use event_sourced_core_banki.Base.{Text, text, [], ◌∷◌, ◌++◌, Bool, true, false, eqb, if◌then◌else◌}
use event_sourced_core_banki.Common.Result.{
  Error, bad_request, conflict, not_found, plain, retryable, wrong_expected_version, projection_gap,
}
use event_sourced_core_banki.Common.Money.{show_nat}

unfoldable pub message : Error → Text
message (bad_request m) = m
message (conflict m) = m
message (not_found m) = m
message (plain m) = m
message (retryable m) = m
message (wrong_expected_version stream expected actual) =
    text "WrongExpectedVersion for stream "
    ++ (stream
        ++ (text ". Expected " ++ (show_nat expected ++ (text ", actual " ++ show_nat actual))))
message (projection_gap account expected actual) =
    text "Projection gap for account "
    ++ (account
        ++ (text ". Expected stream version "
            ++ (show_nat expected ++ (text ", received " ++ show_nat actual))))

-- `s.startsWith(word)`
unfoldable pub starts_with : Text → Text → Bool
starts_with s [] = true
starts_with [] (d ∷ word) = false
starts_with (c ∷ s) (d ∷ word) = if eqb c d then starts_with s word else false

-- `s.includes(word)`
unfoldable pub includes : Text → Text → Bool
unfolding starts_with
includes [] word = starts_with [] word
includes (c ∷ s) word = if starts_with (c ∷ s) word then true else includes s word
