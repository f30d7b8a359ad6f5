-- ===== src/Monitor/StatusFile.antt =====
-- The bytes of the status file that write_status of srvctl/src/monitor.c writes. How the machine
-- stores an apr_uint32_t is a parameter.
use ngim.Base.{ℕ, ◌%◌, ◌^◌, List, [], ◌∷◌, ◌++◌, if◌then◌else◌}
use ngim.Tai.Bytes.{tain_pack}
use ngim.Monitor.{Status}

module _ (store : ℕ → List ℕ) where
  -- `buffer`, of which the fields leave no byte out.
  unfoldable pub status_bytes : Status → List ℕ
  unfolding tain_pack
  status_bytes st =
      tain_pack st.updated
      ++ (tain_pack st.run_changed
          ++ (tain_pack st.log_changed
              ++ (store (st.run_pid % 2 ^ 32)
                  ++ (store (st.log_pid % 2 ^ 32) ++ ((if st.forward then 1 else 0) ∷ [])))))
