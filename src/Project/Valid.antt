-- ===== src/Project/Valid.antt =====
-- The ranges of a project's parameters, and the fill functions of etmemd_project.c.
use etmem.Base.{◌≤◌, ◌<◌, ◌≡◌, ◌≢◌, ◌⊎◌, false, true, [], some, arith, subst}
use etmem.Base.Int.{ℤ, pos, negsuc, ◌≤ℤ◌}
use etmem.Base.Options.{>>=-eq-some, guard-eq-some, some_inj}
use etmem.Base.Named.{All}
use etmem.Config.Keeps.{Keeps, parse_file_config-keeps}
use etmem.Config.{KeyFile, parse_item, fill_item, parse_file_config}
use etmem.Project.{Project, PageScan, RegionScan, ScanParam, unset, page_scan, region_scan, Env}
use etmem.Project.Params.{
  max_loop_value, max_interval_value, max_sleep_value, min_nr_min_val, max_percent, proj_group,
  name_item, param_items, check_swapcache_wmark_valid, page_scan_config_items,
  region_scan_config_items, project_config_items, fill_scan_param, scan_fill_by_conf,
  project_fill_by_conf, blank_project,
}

pub record PageScanValid (s : PageScan) : Type 0 where
  pub loop_low : pos 1 ≤ℤ s.loop
  pub loop_high : s.loop ≤ℤ pos max_loop_value
  pub interval_low : pos 1 ≤ℤ s.interval
  pub interval_high : s.interval ≤ℤ pos max_interval_value
  pub sleep_low : pos 1 ≤ℤ s.sleep
  pub sleep_high : s.sleep ≤ℤ pos max_sleep_value

pub record RegionScanValid (s : RegionScan) : Type 0 where
  pub min_low : min_nr_min_val ≤ s.min_nr_regions
  pub min_lt_max : s.min_nr_regions < s.max_nr_regions

abbrev pub ScanValid : ScanParam → Type 0
ScanValid unset = ⊥
ScanValid (page_scan s) = PageScanValid s
ScanValid (region_scan s) = RegionScanValid s

-- The watermarks are both absent, or both percentages with the low one below the high one.
abbrev pub WmarksValid : Project → Type 0
WmarksValid p =
    ((p.swapcache_high_wmark ≡ negsuc 0) × (p.swapcache_low_wmark ≡ negsuc 0))
    ⊎ ((pos 1 ≤ℤ p.swapcache_low_wmark)
        × (p.swapcache_low_wmark ≤ℤ p.swapcache_high_wmark)
        × (p.swapcache_low_wmark ≢ p.swapcache_high_wmark)
        × (p.swapcache_high_wmark ≤ℤ pos max_percent))

pub record ParamsValid (p : Project) : Type 0 where
  pub threshold_low : negsuc 0 ≤ℤ p.sysmem_threshold
  pub threshold_high : p.sysmem_threshold ≤ℤ pos max_percent
  pub wmarks : WmarksValid p
  pub scan : ScanValid p.scan_param

page_items-valid :
    (config : KeyFile) (s t : PageScan)
    → parse_file_config config proj_group page_scan_config_items s ≡ some t
    → PageScanValid t
unfolding parse_file_config parse_item fill_item page_scan_config_items
page_items-valid config s t h = ground arith

region_items-valid :
    (config : KeyFile) (s t : RegionScan)
    → parse_file_config config proj_group region_scan_config_items s ≡ some t
    → min_nr_min_val ≤ t.min_nr_regions
unfolding parse_file_config parse_item fill_item region_scan_config_items
region_items-valid config s t h = ground arith

fill_scan_param-valid :
    (config : KeyFile) (scan scan' : ScanParam)
    → fill_scan_param config scan ≡ some scan'
    → ScanValid scan'
unfolding fill_scan_param
fill_scan_param-valid config unset scan' h = cc
fill_scan_param-valid config (page_scan s) scan' h =
    let (t, parsed, e) =
      >>=-eq-some (parse_file_config config proj_group page_scan_config_items s) _ h in
    ground (arith, page_items-valid config s t parsed)
fill_scan_param-valid config (region_scan s) scan' h =
    let (t, parsed, e) =
      >>=-eq-some (parse_file_config config proj_group region_scan_config_items s) _ h in
    ground (arith, region_items-valid config s t parsed)

-- A watermark that is absent or a percentage.
abbrev MayBeWmark : ℤ → Type 0
MayBeWmark n = (n ≡ negsuc 0) ⊎ ((pos 1 ≤ℤ n) × (n ≤ℤ pos max_percent))

-- What the project's own items leave behind.
record Filled (config : KeyFile) (p : Project) : Type 0 where
  threshold_low : negsuc 0 ≤ℤ p.sysmem_threshold
  threshold_high : p.sysmem_threshold ≤ℤ pos max_percent
  high : MayBeWmark p.swapcache_high_wmark
  low : MayBeWmark p.swapcache_low_wmark
  named : config.get_string proj_group "name" ≡ some p.name
  no_engs : p.engs ≡ []
  stopped : p.start ≡ false

name_item-Filled :
    (config : KeyFile) (p : Project)
    → parse_item config proj_group name_item blank_project ≡ some p
    → Filled config p
unfolding parse_item fill_item name_item
name_item-Filled config p h = ground arith

param_items-Filled :
    (env : Env) (config : KeyFile) → All (λ i. Keeps (Filled config) i.fill) (param_items env)
unfolding param_items
param_items-Filled env config = (
  λ o v o' p h. ground arith,
  (λ o v o' p h. ground arith, (λ o v o' p h. ground arith, (λ o v o' p h. ground arith, tt))),
)

wmarks-valid :
    {config : KeyFile} (p : Project)
    → Filled config p
    → check_swapcache_wmark_valid p ≡ true
    → WmarksValid p
unfolding check_swapcache_wmark_valid
wmarks-valid p f h = ground arith

-- A project that etmemd_project_add is about to insert.
pub record NewValid (config : KeyFile) (p : Project) : Type 0 where
  pub params : ParamsValid p
  pub named : config.get_string proj_group "name" ≡ some p.name
  pub no_engs : p.engs ≡ []
  pub stopped : p.start ≡ false

filled-parts :
    (env : Env) (config : KeyFile) (p : Project)
    → project_fill_by_conf env config blank_project ≡ some p
    → Filled config p × (check_swapcache_wmark_valid p ≡ true)
unfolding project_fill_by_conf project_config_items parse_file_config
filled-parts env config p h =
    let (q, parsed, checked) =
      >>=-eq-some (parse_file_config config proj_group (project_config_items env) blank_project) _
        h in
    let (mid, first, rest) =
      >>=-eq-some (parse_item config proj_group name_item blank_project) _ parsed in
    let f =
      parse_file_config-keeps (Filled config) config proj_group (param_items env) mid q
        (param_items-Filled env config) (name_item-Filled config mid first) rest in
    let (valid, e) = guard-eq-some (check_swapcache_wmark_valid q) q checked in
    (subst (Filled config) e f, subst (λ r. check_swapcache_wmark_valid r ≡ true) e valid)

-- If both fills succeed on a blank project, then the project has its parameters in their ranges
-- and the name that the file gives, is stopped, and has no engines.
pub fills-NewValid :
    (env : Env) (config : KeyFile) (p p' : Project)
    → project_fill_by_conf env config blank_project ≡ some p
    → scan_fill_by_conf config p ≡ some p'
    → NewValid config p'
unfolding scan_fill_by_conf
fills-NewValid env config p p' h k =
    let (f, checked) = filled-parts env config p h in
    let (scan, filled, e) = >>=-eq-some (fill_scan_param config p.scan_param) _ k in
    let valid = fill_scan_param-valid config p.scan_param scan filled in
    subst (NewValid config) (some_inj e) (record {
      params = record {
        threshold_low = f.threshold_low;
        threshold_high = f.threshold_high;
        wmarks = wmarks-valid p f checked;
        scan = valid;
      };
      named = f.named;
      no_engs = f.no_engs;
      stopped = f.stopped;
    })
