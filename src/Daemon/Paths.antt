-- ===== src/Daemon/Paths.antt =====
-- The default paths of an agent's files (include/pcp-cpp/pmda.hpp).
use pcp_pmda_cpp.Base.{Text, codes, [], ◌∷◌, ◌++◌}
use pcp_pmda_cpp.Pcp.{Pmapi}

module _ (api : Pmapi) (pmda_name : Text) where
  unfoldable pub get_config_file_pathname : Text
  get_config_file_pathname =
      api.get_config (codes "PCP_PMDAS_DIR")
      ++ (api.path_separator ∷ [])
      ++ pmda_name
      ++ (api.path_separator ∷ [])
      ++ codes "config"

  unfoldable pub get_help_text_pathname : Text
  get_help_text_pathname =
      api.get_config (codes "PCP_PMDAS_DIR")
      ++ (api.path_separator ∷ [])
      ++ pmda_name
      ++ (api.path_separator ∷ [])
      ++ codes "help"

unfoldable pub get_log_file_pathname : Text → Text
get_log_file_pathname pmda_name = pmda_name ++ codes ".log"
