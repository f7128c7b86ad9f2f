-- ===== src/Boot/Descriptors.antt =====
-- The two descriptors that `entry` puts into the GDT.
use linux_based_os.Prelude.{ℕ, ◌^◌, ◌<◌, ◌≡◌, refl, arith}
use linux_based_os.Segment.{SegDesc, set_params}
use linux_based_os.Segment.Fields.{base_of, limit_of, set_params_lem}
use linux_based_os.Boot.{Linked, the_ldt_desc, the_tss_desc, ldt_template, tss_template}

-- The descriptor is a present system segment of the kernel's, of this type, at this base and with
-- this limit in bytes.
pub record SystemSegment (d : SegDesc) (kind base limit : ℕ) : Type 0 where
  pub base_is : base_of d ≡ base
  pub limit_is : limit_of d ≡ limit
  pub kind_is : d.type ≡ kind
  pub system : d.sys ≡ 0
  pub kernel : d.dpl ≡ 0
  pub is_present : d.present ≡ 1
  pub in_bytes : d.granularity ≡ 0

-- For 32-bit addresses and sizes of at most 20 bits, whatever stood on the stack, the descriptors
-- of the LDT and of the TSS are present system segments of the kernel at the address and of the
-- size that the linker gives.
descriptors_lem :
    (l : Linked)
    → l.ldt < 2 ^ 32
    → l.ldt_size < 2 ^ 20
    → l.tss < 2 ^ 32
    → l.tss_size < 2 ^ 20
    → SystemSegment (the_ldt_desc l) 2 l.ldt l.ldt_size
      × SystemSegment (the_tss_desc l) 9 l.tss l.tss_size
unfolding the_ldt_desc the_tss_desc set_params
descriptors_lem l a b c d =
    let ldt = set_params_lem (ldt_template l.stack) l.ldt l.ldt_size a in
    let tss = set_params_lem (tss_template l.stack) l.tss l.tss_size c in
    (
      record {
        base_is = ldt.0;
        limit_is = omega (arith, ldt.1);
        kind_is = refl;
        system = refl;
        kernel = refl;
        is_present = refl;
        in_bytes = refl;
      },
      record {
        base_is = tss.0;
        limit_is = omega (arith, tss.1);
        kind_is = refl;
        system = refl;
        kernel = refl;
        is_present = refl;
        in_bytes = refl;
      },
    )
