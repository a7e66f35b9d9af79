-- ===== src/Front/Tests.antt =====
-- A number as a customer types it.
use ghost_merchant.Base.{◌≡◌}
use ghost_merchant.Base.Text.{text}
use ghost_merchant.Domain.Phone.{parse_phone}
use ghost_merchant.Front.Phone.{parse}
use ghost_merchant.Front.Phone.Mirror.{accepted_here, accepted_there, parse-parse_phone}

parse-parse_phone_example :
    accepted_here (parse (text "061 234 5678")) ≡ accepted_there (parse_phone (text "061 234 5678"))
parse-parse_phone_example = parse-parse_phone (text "061 234 5678")
