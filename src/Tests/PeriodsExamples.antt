-- ===== src/Tests/PeriodsExamples.antt =====
-- A day, two minutes and three seconds, gone by.
use alarmd.Common.{◌≡◌, negsuc, arith}
use alarmd.Periods.{ticker_secs_format, ticker_secs_parse}
use alarmd.Periods.ReadBack.{ticker_secs_parse-format}

ticker_secs_parse-format_example :
    ticker_secs_parse (ticker_secs_format (negsuc 86522)) ≡ negsuc 86522
ticker_secs_parse-format_example = ticker_secs_parse-format (negsuc 86522) (omega arith)
