-- ===== src/Select/Tests.antt =====
-- Two sets of routes.
use route_lang.Common.{◌↔◌, All, ◌≡◌, refl, true, false, [], ◌∷◌, codes}
use route_lang.Canon.{finalize_path_canonical}
use route_lang.Tokens.Segments.{segments}
use route_lang.Select.{path_has_param_segment, needs_segment_aware}
use route_lang.Select.Params.{any_param, path_has_param_segment-segments}
use route_lang.Select.Overlap.{AlignedRoutes, Pairwise, needs_segment_aware-Pairwise}

sensitive_pair : needs_segment_aware (codes "/api" ∷ codes "/apix" ∷ []) ≡ true
unfolding needs_segment_aware finalize_path_canonical
sensitive_pair = refl

path_has_param_segment-segments_example :
    path_has_param_segment (codes "/a/:b") ≡ any_param (segments (codes "/a/:b"))
path_has_param_segment-segments_example = path_has_param_segment-segments (codes "/a/:b")

needs_segment_aware-Pairwise_example :
    (needs_segment_aware (codes "/api" ∷ codes "/api/v1" ∷ []) ≡ false) ↔ (
      All (λ p. path_has_param_segment p ≡ false) (codes "/api" ∷ codes "/api/v1" ∷ [])
      × Pairwise AlignedRoutes (codes "/api" ∷ codes "/api/v1" ∷ []))
needs_segment_aware-Pairwise_example =
    needs_segment_aware-Pairwise (codes "/api" ∷ codes "/api/v1" ∷ [])
