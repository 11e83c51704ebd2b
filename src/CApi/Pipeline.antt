-- ===== src/CApi/Pipeline.antt =====
-- From a digest to its picture through the C interface: src/c_api.cpp beside src/derive.cpp and
-- src/raster.cpp.
use hh_cpp.Base.{ℕ, true, some, List}
use hh_cpp.Error.{to_int}
use hh_cpp.Derive.{universal_fingerprint}
use hh_cpp.Raster.Render.{render_into}
use hh_cpp.CApi.Digests.{Answer}
use hh_cpp.CApi.Pictures.{default_options}

-- What `render_into` answers for the universal fingerprint of a digest and the default options.
abbrev pub direct : List ℕ → ℕ → List ℕ → ℕ → Answer
direct bytes size rgba capacity =
    let fp = (universal_fingerprint (record { bytes = bytes; set_ = true })).1 in
    let done = render_into fp size default_options (some rgba) capacity in (to_int done.0, done.1)
