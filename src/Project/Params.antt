-- ===== src/Project/Params.antt =====
-- The parameters of a project from its configuration group (etmemd_project.c): the fill functions,
-- their tables and the checks across parameters.
use etmem.Base.{
  ℕ, Bool, true, false, ◌&&◌, ◌||◌, List, [], ◌∷◌, Option, none, some, ltb, if◌then◌else◌, String,
}
use etmem.Base.Int.{ℤ, pos, negsuc, ltb_ℤ, eqb_ℤ}
use etmem.Base.Options.{◌>>=◌, ◌>>◌, guard}
use etmem.Base.Text.{str_eq}
use etmem.Config.{
  KeyFile, ConfigItem, int_val, str_val, parse_to_int, parse_to_ulong, parse_file_config,
}
use etmem.Project.{
  Project, PageScan, RegionScan, ScanParam, unset, page_scan, region_scan, Env, scan_site,
}

abbrev pub max_loop_value : ℕ
max_loop_value = 120

abbrev pub max_interval_value : ℕ
max_interval_value = 1200

abbrev pub max_sleep_value : ℕ
max_sleep_value = 1200

abbrev pub min_nr_min_val : ℕ
min_nr_min_val = 3

-- MAX_SYSMEM_THRESHOLD_VALUE and MAX_SWAPCACHE_WMARK_VALUE.
abbrev pub max_percent : ℕ
max_percent = 100

unfoldable pub out_of_range : ℤ → ℤ → ℤ → Bool
out_of_range low high n = ltb_ℤ n low || ltb_ℤ high n

unfoldable pub fill_page_scan_loop : PageScan → ℤ → Option PageScan
unfolding out_of_range
fill_page_scan_loop scan val =
    let loop = parse_to_int val in
    if out_of_range (pos 1) (pos max_loop_value) loop
    then none
    else some (record scan { loop = loop })

unfoldable pub fill_page_scan_interval : PageScan → ℤ → Option PageScan
unfolding out_of_range
fill_page_scan_interval scan val =
    let interval = parse_to_int val in
    if out_of_range (pos 1) (pos max_interval_value) interval
    then none
    else some (record scan { interval = interval })

unfoldable pub fill_page_scan_sleep : PageScan → ℤ → Option PageScan
unfolding out_of_range
fill_page_scan_sleep scan val =
    let sleep = parse_to_int val in
    if out_of_range (pos 1) (pos max_sleep_value) sleep
    then none
    else some (record scan { sleep = sleep })

unfoldable pub page_scan_config_items : List (ConfigItem PageScan)
unfolding fill_page_scan_loop fill_page_scan_interval fill_page_scan_sleep
page_scan_config_items =
    record { key = "loop"; fill = int_val fill_page_scan_loop; option = false }
    ∷ record { key = "interval"; fill = int_val fill_page_scan_interval; option = false }
    ∷ record { key = "sleep"; fill = int_val fill_page_scan_sleep; option = false }
    ∷ []

fill_region_scan_samp_interval : RegionScan → ℤ → Option RegionScan
fill_region_scan_samp_interval scan val =
    some (record scan { sample_interval = parse_to_ulong val })

fill_region_scan_aggr_interval : RegionScan → ℤ → Option RegionScan
fill_region_scan_aggr_interval scan val = some (record scan { aggr_interval = parse_to_ulong val })

fill_region_scan_updt_interval : RegionScan → ℤ → Option RegionScan
fill_region_scan_updt_interval scan val =
    some (record scan { update_interval = parse_to_ulong val })

fill_region_scan_min_nr : RegionScan → ℤ → Option RegionScan
fill_region_scan_min_nr scan val =
    let min_nr = parse_to_ulong val in
    if ltb min_nr min_nr_min_val then none else some (record scan { min_nr_regions = min_nr })

fill_region_scan_max_nr : RegionScan → ℤ → Option RegionScan
fill_region_scan_max_nr scan val =
    let max_nr = parse_to_ulong val in
    if ltb max_nr min_nr_min_val then none else some (record scan { max_nr_regions = max_nr })

unfoldable pub region_scan_config_items : List (ConfigItem RegionScan)
unfolding fill_region_scan_samp_interval fill_region_scan_aggr_interval
    fill_region_scan_updt_interval fill_region_scan_min_nr fill_region_scan_max_nr
region_scan_config_items =
    record {
      key = "sample_interval";
      fill = int_val fill_region_scan_samp_interval;
      option = false;
    }
    ∷ record {
      key = "aggr_interval";
      fill = int_val fill_region_scan_aggr_interval;
      option = false;
    }
    ∷ record {
      key = "update_interval";
      fill = int_val fill_region_scan_updt_interval;
      option = false;
    }
    ∷ record { key = "min_nr_regions"; fill = int_val fill_region_scan_min_nr; option = false }
    ∷ record { key = "max_nr_regions"; fill = int_val fill_region_scan_max_nr; option = false }
    ∷ []

abbrev pub proj_group : String
proj_group = "project"

-- A project whose scan type was never set has type PAGE_SCAN and a NULL scan_param, through which
-- parse_file_config would write; `none` stands for that too.
unfoldable pub fill_scan_param : KeyFile → ScanParam → Option ScanParam
unfolding page_scan_config_items region_scan_config_items
fill_scan_param config unset = none
fill_scan_param config (page_scan scan) = do
  filled ← parse_file_config config proj_group page_scan_config_items scan
  some (page_scan filled)
fill_scan_param config (region_scan scan) = do
  filled ← parse_file_config config proj_group region_scan_config_items scan
  guard (ltb filled.min_nr_regions filled.max_nr_regions)
  some (region_scan filled)

unfoldable pub scan_fill_by_conf : KeyFile → Project → Option Project
unfolding fill_scan_param
scan_fill_by_conf config proj = do
  scan ← fill_scan_param config proj.scan_param
  some (record proj { scan_param = scan })

unfoldable pub fill_project_name : Project → String → Option Project
fill_project_name proj val = some (record proj { name = val })

-- calloc
abbrev blank_page_scan : PageScan
blank_page_scan = record { interval = pos 0; loop = pos 0; sleep = pos 0 }

abbrev blank_region_scan : RegionScan
blank_region_scan = record {
  sample_interval = 0;
  aggr_interval = 0;
  update_interval = 0;
  min_nr_regions = 0;
  max_nr_regions = 0;
}

unfoldable pub fill_project_scan_type : Env → Project → String → Option Project
fill_project_scan_type env proj val =
    if str_eq val "page"
    then (if env.alloc scan_site
        then some (record proj { scan_param = page_scan blank_page_scan })
        else none)
    else if str_eq val "region"
    then (if env.alloc scan_site
        then some (record proj { scan_param = region_scan blank_region_scan })
        else none)
    else none

fill_project_sysmem_threshold : Project → ℤ → Option Project
unfolding out_of_range
fill_project_sysmem_threshold proj val =
    let sysmem_threshold = parse_to_int val in
    if out_of_range (pos 0) (pos max_percent) sysmem_threshold
    then none
    else some (record proj { sysmem_threshold = sysmem_threshold })

fill_project_swapcache_low_wmark : Project → ℤ → Option Project
unfolding out_of_range
fill_project_swapcache_low_wmark proj val =
    let wmark = parse_to_int val in
    if out_of_range (pos 1) (pos max_percent) wmark
    then none
    else some (record proj { swapcache_low_wmark = wmark })

fill_project_swapcache_high_wmark : Project → ℤ → Option Project
unfolding out_of_range
fill_project_swapcache_high_wmark proj val =
    let wmark = parse_to_int val in
    if out_of_range (pos 1) (pos max_percent) wmark
    then none
    else some (record proj { swapcache_high_wmark = wmark })

unfoldable pub check_swapcache_wmark_valid : Project → Bool
check_swapcache_wmark_valid proj =
    (eqb_ℤ proj.swapcache_high_wmark (negsuc 0) && eqb_ℤ proj.swapcache_low_wmark (negsuc 0))
    || (ltb_ℤ (pos 0) proj.swapcache_high_wmark
        && (ltb_ℤ (pos 0) proj.swapcache_low_wmark
            && ltb_ℤ proj.swapcache_low_wmark proj.swapcache_high_wmark))

unfoldable pub name_item : ConfigItem Project
unfolding fill_project_name
name_item = record { key = "name"; fill = str_val fill_project_name; option = false }

unfoldable pub param_items : Env → List (ConfigItem Project)
unfolding fill_project_scan_type fill_project_sysmem_threshold fill_project_swapcache_high_wmark
    fill_project_swapcache_low_wmark
param_items env =
    record { key = "scan_type"; fill = str_val (fill_project_scan_type env); option = false }
    ∷ record {
      key = "sysmem_threshold";
      fill = int_val fill_project_sysmem_threshold;
      option = true;
    }
    ∷ record {
      key = "swapcache_high_wmark";
      fill = int_val fill_project_swapcache_high_wmark;
      option = true;
    }
    ∷ record {
      key = "swapcache_low_wmark";
      fill = int_val fill_project_swapcache_low_wmark;
      option = true;
    }
    ∷ []

unfoldable pub project_config_items : Env → List (ConfigItem Project)
project_config_items env = name_item ∷ param_items env

unfoldable pub project_fill_by_conf : Env → KeyFile → Project → Option Project
unfolding project_config_items
project_fill_by_conf env config proj = do
  filled ← parse_file_config config proj_group (project_config_items env) proj
  guard (check_swapcache_wmark_valid filled)
  some filled

-- calloc, and -1 for what is not set.
abbrev pub blank_project : Project
blank_project = record {
  name = "";
  scan_param = unset;
  sysmem_threshold = negsuc 0;
  swapcache_high_wmark = negsuc 0;
  swapcache_low_wmark = negsuc 0;
  start = false;
  engs = [];
}
