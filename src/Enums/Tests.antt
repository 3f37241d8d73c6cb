-- ===== src/Enums/Tests.antt =====
-- The names of src/util/enums.hh at concrete values.
use seastar_live.Prelude.{◌≡◌, refl}
use seastar_live.Enums.MimeTypes.{extension_to_mime_type, first_answer}

-- A later test of the same text is not reached.
crl : extension_to_mime_type ".crl" ≡ "application/pkix-crl"
unfolding extension_to_mime_type first_answer
crl = refl

no_type : extension_to_mime_type ".md" ≡ ""
unfolding extension_to_mime_type first_answer
no_type = refl
