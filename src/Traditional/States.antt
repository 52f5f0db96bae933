-- ===== src/Traditional/States.antt =====
-- The states of segments and of pages.
use memory_alloc_analysis.Prelude.{ℕ, ◌+◌, ◌-◌, ◌*◌, ◌/◌, ◌^◌, Bool, true, false, List, [], ◌∷◌}

pub data SegSt : Type 0 where
  ahwm tidy wait junk : SegSt

pub data PageSt : Type 0 where
  umap mapd : PageSt

-- the sets sst_at and sst_tj
abbrev pub in_at : SegSt → Bool
in_at ahwm = true
in_at tidy = true
in_at wait = false
in_at junk = false

abbrev pub in_tj : SegSt → Bool
in_tj tidy = true
in_tj junk = true
in_tj ahwm = false
in_tj wait = false

abbrev pub sst_tj : List SegSt
sst_tj = tidy ∷ junk ∷ []

abbrev pub is_tidy : SegSt → Bool
is_tidy tidy = true
is_tidy ahwm = false
is_tidy wait = false
is_tidy junk = false

abbrev pub is_wait : SegSt → Bool
is_wait wait = true
is_wait ahwm = false
is_wait tidy = false
is_wait junk = false

abbrev pub is_junk : SegSt → Bool
is_junk junk = true
is_junk ahwm = false
is_junk tidy = false
is_junk wait = false

abbrev pub is_mapd : PageSt → Bool
is_mapd mapd = true
is_mapd umap = false

-- a page has 2 ^ 12 bytes
abbrev pub pagelog : ℕ
pagelog = 12

abbrev pub eva2evp : ℕ → ℕ
eva2evp eva = eva / 2 ^ pagelog

abbrev pub evp2eva : ℕ → ℕ
evp2eva evp = evp * 2 ^ pagelog

abbrev pub eva2evp_roundup : ℕ → ℕ
eva2evp_roundup eva = (eva + 2 ^ pagelog - 1) / 2 ^ pagelog

abbrev pub npg2nby : ℕ → ℕ
npg2nby npg = npg * 2 ^ pagelog
