-- ===== src/Log/Assert.antt =====
-- When the macros of core/utils/logging.hh abort, and when they print.
use rlibv.Base.{ℕ, ◌≤◌, ◌<◌, ◌≡◌, refl, Bool, true, not, ◌&&◌, leb, arith}
use rlibv.Marshal.{ByteBuffer}
use rlibv.Log.{
  silent, no_level, fatal, message_logger_dtor, message_logger, rdma_log, rdma_log_if, rdma_assert,
  rdma_verify,
}

module _ (threshold : ℕ) (file : ByteBuffer) (line : ℕ) where
  -- At every level of the enumeration, `NONE` too, an assertion aborts the process exactly if its
  -- condition does not hold; one that holds prints nothing. A log line, `RDMA_VERIFY` among them, aborts only from
  -- the level `FATAL` on, and below the level of the build it prints nothing and does not abort.
  pub rdma_assert-aborts :
      (condition : Bool) (n : ℕ) (text : ByteBuffer)
      → threshold ≤ no_level
      → ((rdma_assert threshold file line condition text).aborted ≡ not condition)
        × (rdma_assert threshold file line true text ≡ silent)
        × ((rdma_verify threshold file line n condition text).aborted
            ≡ (leb fatal n && leb threshold n) && not condition)
        × ((rdma_log threshold file line n text).aborted ≡ leb fatal n && leb threshold n)
        × (n < threshold → rdma_log threshold file line n text ≡ silent)
  unfolding rdma_assert rdma_verify rdma_log rdma_log_if message_logger message_logger_dtor
  rdma_assert-aborts condition n text h =
      (ground arith, refl, ground arith, ground arith, λ k. ground arith)
