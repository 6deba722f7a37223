-- ===== src/Examples/Rulings.antt =====
-- Each kind of rule on single transactions.
use riskr_rs.Base.{ℕ, ◌≡◌, ◌↔◌, true, codes, arith, Result, ok, get, insert}
use riskr_rs.Domain.Decision.{hold_auto, reject_fatal, review}
use riskr_rs.Domain.Event.{TxEvent}
use riskr_rs.Storage.Mock.{
  MockStorage, mock, get_small_tx_count, set_small_tx_count, set_rolling_volume,
}
use riskr_rs.Rules.Ofac
use riskr_rs.Rules.Ofac.Screening.{IsListed, is_sanctioned_iff}
use riskr_rs.Rules.DailyVolume
use riskr_rs.Rules.DailyVolume.{DailyVolumeRule}
use riskr_rs.Rules.DailyVolume.Limit.{Limited, evaluate-Limited}
use riskr_rs.Rules.Structuring
use riskr_rs.Rules.Structuring.{StructuringRule}
use riskr_rs.Rules.Structuring.Counting.{Fits, Counted, evaluate-Counted}
use riskr_rs.Api.Request.{to_tx_event}
use riskr_rs.Examples.Samples.{plain, plain_bloom, sanctions, store, large, listed_address}

abbrev large_event : TxEvent plain
large_event = to_tx_event plain 7 100 large

abbrev listed_event : TxEvent plain
listed_event = to_tx_event plain 7 100 listed_address

is_sanctioned_iff_example :
    (Ofac.is_sanctioned plain (Ofac.new plain (codes "R1") reject_fatal sanctions) (codes "0xDEAD")
      ≡ true)
    ↔ IsListed sanctions (codes "0xDEAD")
is_sanctioned_iff_example =
    is_sanctioned_iff plain plain_bloom (codes "R1") reject_fatal sanctions (codes "0xDEAD")

abbrev volume_rule : DailyVolumeRule plain
volume_rule = record { id = codes "R4"; action = hold_auto; limit = 50000 }

abbrev after_45000 : MockStorage plain
after_45000 = set_rolling_volume plain 0 45000 store

evaluate-Limited_example :
    Limited plain volume_rule large_event
      ((mock plain).get_rolling_volume 0 86400 after_45000)
      (DailyVolume.evaluate plain volume_rule (mock plain) large_event 0 after_45000)
evaluate-Limited_example = evaluate-Limited plain volume_rule large_event (mock plain) 0 after_45000

abbrev small_rule : StructuringRule plain
small_rule = record {
  id = codes "R5";
  action = review;
  amount_threshold = 2000;
  count_threshold = 5;
}

abbrev after_5 : MockStorage plain
after_5 = set_small_tx_count plain 0 5 store

five-Fits :
    Fits plain small_rule listed_event ((mock plain).get_small_tx_count 0 86400 2000 after_5)
unfolding get_small_tx_count set_small_tx_count to_tx_event get insert
five-Fits n e = let five : ◌≡◌ {A = Result ℕ} (ok 5) (ok n) = e in ground arith

evaluate-Counted_example :
    Counted plain small_rule listed_event
      ((mock plain).get_small_tx_count 0 86400 2000 after_5)
      (Structuring.evaluate plain small_rule (mock plain) listed_event 0 after_5)
evaluate-Counted_example =
    evaluate-Counted plain small_rule listed_event (mock plain) 0 after_5 five-Fits
