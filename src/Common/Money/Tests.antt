-- ===== src/Common/Money/Tests.antt =====
-- The theorems about money at concrete amounts.
use event_sourced_core_banki.Base.{◌≡◌, negsuc}
use event_sourced_core_banki.Common.Result.{ok}
use event_sourced_core_banki.Common.Money.{
  MoneyInput, parse_money_to_minor_units, format_minor_units_to_money,
}
use event_sourced_core_banki.Common.Money.RoundTrip.{parse-format}

parse-format_example :
    parse_money_to_minor_units (MoneyInput.string (format_minor_units_to_money (negsuc 4)))
    ≡ ok (negsuc 4)
parse-format_example = parse-format (negsuc 4)
