-- ===== src/Layout/PolicyLaws.antt =====
-- The layouts as instances of what `Region` uses.
use kerbecs.Common.{arith}
use kerbecs.Layout.Normal as Normal
use kerbecs.Layout.Static as Static
use kerbecs.Layout.Enhanced as Enhanced
use kerbecs.Layout.Sizes.{normal_sizes, static_sizes, enhanced_sizes}
use kerbecs.Layout.NormalLaws.{place-NormalPlaced}
use kerbecs.Layout.StaticLaws.{place-StaticPlaced}
use kerbecs.Layout.EnhancedLaws.{place-EnhancedPlaced}
use kerbecs.Layout.Policy.{IsLayout, normal_layout, static_layout, enhanced_layout}

pub normal_layout-IsLayout : IsLayout normal_layout
unfolding Normal.place
normal_layout-IsLayout = record {
  places = λ m base payload align nz w small passed.
      let p = normal_sizes payload align w small passed in
      let q = place-NormalPlaced m base payload align nz w small passed in
      record {
        inside = omega (arith, p.after_payload, p.guard_after, p.whole);
        in_word = p.in_word;
        aligned = p.user_aligned;
        payload_kept = q.payload_kept;
        outside_kept = q.outside_kept;
      };
}

pub static_layout-IsLayout : IsLayout static_layout
unfolding Static.place
static_layout-IsLayout = record {
  places = λ m base payload align nz w small passed.
      let p = static_sizes payload align w small passed in
      let q = place-StaticPlaced m base payload align nz w small passed in
      record {
        inside = omega (arith, p.canary_after, p.guard_after, p.whole);
        in_word = p.in_word;
        aligned = p.user_aligned;
        payload_kept = q.payload_kept;
        outside_kept = q.outside_kept;
      };
}

pub enhanced_layout-IsLayout : IsLayout enhanced_layout
unfolding Enhanced.place
enhanced_layout-IsLayout = record {
  places = λ m base payload align nz w small passed.
      let p = enhanced_sizes payload align w small passed in
      let q = place-EnhancedPlaced m base payload align nz w small passed in
      record {
        inside = omega (arith, p.canary_after, p.meta_after, p.guard_after, p.whole);
        in_word = p.in_word;
        aligned = p.user_aligned;
        payload_kept = q.payload_kept;
        outside_kept = q.outside_kept;
      };
}
