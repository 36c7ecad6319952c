-- ===== src/Pcp.antt =====
-- What the headers take from libpcp and libpcp_pmda (pcp/pmapi.h, pcp/pmda.h): constants and pure
-- functions, as a parameter of the model. Their laws are named hypotheses of the theorems.
use pcp_pmda_cpp.Base.{ℕ, ◌+◌, ◌*◌, ◌/◌, ◌%◌, ◌^◌, ◌<◌, ◌≡◌, true, false, arith, Text, codes}
use pcp_pmda_cpp.Base.Int.{ℤ, pos, negsuc, decimal_ℤ, is_neg}

-- The PM_TYPE_* constants.
pub record AtomTypes : Type 0 where
  pub type_32 : ℕ
  pub type_u32 : ℕ
  pub type_64 : ℕ
  pub type_u64 : ℕ
  pub type_float : ℕ
  pub type_double : ℕ
  pub type_string : ℕ
  pub type_aggregate : ℕ
  pub type_aggregate_static : ℕ
  pub type_event : ℕ
  pub type_highres_event : ℕ
  pub type_unknown : ℕ

-- pcp/pmapi.h numbers them in this order.
pub record IsAscending (t : AtomTypes) : Type 0 where
  pub type_32-lt : t.type_32 < t.type_u32
  pub type_u32-lt : t.type_u32 < t.type_64
  pub type_64-lt : t.type_64 < t.type_u64
  pub type_u64-lt : t.type_u64 < t.type_float
  pub type_float-lt : t.type_float < t.type_double
  pub type_double-lt : t.type_double < t.type_string
  pub type_string-lt : t.type_string < t.type_aggregate
  pub type_aggregate-lt : t.type_aggregate < t.type_aggregate_static
  pub type_aggregate_static-lt : t.type_aggregate_static < t.type_event
  pub type_event-lt : t.type_event < t.type_highres_event
  pub type_highres_event-lt : t.type_highres_event < t.type_unknown

pub record Pmapi : Type 0 where
  pub types : AtomTypes
  pub open types use *
  -- PM_ERR_* codes; all are negative.
  pub err_generic : ℤ
  pub err_text : ℤ
  pub err_nodata : ℤ
  pub err_pmid : ℤ
  pub err_indom : ℤ
  pub err_inst : ℤ
  pub err_conv : ℤ
  pub err_sign : ℤ
  pub err_permission : ℤ
  pub err_type : ℤ
  -- PMDA_FETCH_NOVALUES and PMDA_FETCH_STATIC.
  pub fetch_novalues : ℤ
  pub fetch_static : ℤ
  -- PM_INDOM_NULL.
  pub indom_null : ℕ
  pub text_oneline : ℕ
  pub val_insitu : ℕ
  -- PMDA_CACHE_ACTIVE, a status, and the operations of pmdaCacheOp and pmdaCacheStore.
  pub cache_active : ℤ
  pub cache_add : ℤ
  pub cache_inactive : ℤ
  pub cache_size_active : ℤ
  -- pmErrStr_r.
  pub err_str : ℤ → Text
  -- PMDA_PMID of a cluster and an item, and pmID_cluster and pmID_item of what it gives.
  pub pmda_pmid : ℕ → ℕ → ℕ
  pub id_cluster : ℕ → ℕ
  pub id_item : ℕ → ℕ
  -- pmInDom_domain and pmInDom_serial.
  pub indom_domain : ℕ → ℕ
  pub indom_serial : ℕ → ℕ
  -- PM_SEM_COUNTER, PM_SEM_INSTANT, PM_TIME_SEC and PM_COUNT_ONE.
  pub sem_counter : ℕ
  pub sem_instant : ℕ
  pub time_sec : ℕ
  pub count_one : ℤ
  -- PMDA_PMUNITS; a pmUnits is only passed on.
  pub pmda_pmunits : ℤ → ℤ → ℤ → ℕ → ℕ → ℤ → ℕ
  -- pmPathSeparator and pmGetConfig.
  pub path_separator : ℕ
  pub get_config : Text → Text

-- A metric identifier holds 12 bits of cluster and 10 bits of item.
pub record PmidLaws (api : Pmapi) : Type 0 where
  pub cluster_of_pmid : (c i : ℕ) → c < 2 ^ 12 → i < 2 ^ 10 → api.id_cluster (api.pmda_pmid c i) ≡ c
  pub item_of_pmid : (c i : ℕ) → c < 2 ^ 12 → i < 2 ^ 10 → api.id_item (api.pmda_pmid c i) ≡ i

-- The PM_ERR_* codes are negative, and PMDA_FETCH_NOVALUES is not.
pub record ErrorLaws (api : Pmapi) : Type 0 where
  pub generic_neg : is_neg api.err_generic ≡ true
  pub text_neg : is_neg api.err_text ≡ true
  pub pmid_neg : is_neg api.err_pmid ≡ true
  pub indom_neg : is_neg api.err_indom ≡ true
  pub inst_neg : is_neg api.err_inst ≡ true
  pub permission_neg : is_neg api.err_permission ≡ true
  pub novalues_nonneg : is_neg api.fetch_novalues ≡ false

-- The values of PCP 4 on a little-endian machine.
abbrev pub pcp4_types : AtomTypes
pcp4_types = record {
  type_32 = 0;
  type_u32 = 1;
  type_64 = 2;
  type_u64 = 3;
  type_float = 4;
  type_double = 5;
  type_string = 6;
  type_aggregate = 7;
  type_aggregate_static = 8;
  type_event = 9;
  type_highres_event = 10;
  type_unknown = 255;
}

abbrev pub pcp4 : Pmapi
pcp4 = record {
  types = pcp4_types;
  err_generic = negsuc 12344;
  err_text = negsuc 12348;
  err_nodata = negsuc 12353;
  err_pmid = negsuc 12357;
  err_indom = negsuc 12358;
  err_inst = negsuc 12359;
  err_conv = negsuc 12362;
  err_sign = negsuc 12363;
  err_permission = negsuc 12386;
  err_type = negsuc 12396;
  fetch_novalues = pos 0;
  fetch_static = pos 1;
  indom_null = 0xffff_ffff;
  text_oneline = 1;
  val_insitu = 0;
  cache_active = pos 8;
  cache_add = pos 2;
  cache_inactive = pos 9;
  cache_size_active = pos 11;
  err_str = decimal_ℤ;
  pmda_pmid = λ c i. (c * 2 ^ 10) + i;
  id_cluster = λ p. (p / 2 ^ 10) % 2 ^ 12;
  id_item = λ p. p % 2 ^ 10;
  indom_domain = λ d. (d / 2 ^ 22) % 2 ^ 9;
  indom_serial = λ d. d % 2 ^ 22;
  sem_counter = 1;
  sem_instant = 3;
  time_sec = 3;
  count_one = pos 0;
  pmda_pmunits = λ a b c d e f. 0;
  path_separator = b'/';
  get_config = λ v. codes "/var/lib/pcp/pmdas";
}

pub pcp4_types-IsAscending : IsAscending pcp4_types
pcp4_types-IsAscending = omega arith

pub pcp4-PmidLaws : PmidLaws pcp4
pcp4-PmidLaws = record {
  cluster_of_pmid = λ c i hc hi. omega arith;
  item_of_pmid = λ c i hc hi. omega arith;
}

pub pcp4-ErrorLaws : ErrorLaws pcp4
pcp4-ErrorLaws = ground arith
