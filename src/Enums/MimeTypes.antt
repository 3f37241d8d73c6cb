-- ===== src/Enums/MimeTypes.antt =====
-- src/util/enums.cc: the mime type of a file's extension. The chain of tests is the list of its texts and
-- answers, in order.
use seastar_live.Prelude.{List, [], ◌∷◌, if◌then◌else◌}
use Prim.Native.String.{String}
use text.Mathlib.Text.{◌==◌ as str_eq}

-- The answer of the first test that holds, or that of the `else`.
unfoldable pub first_answer : List (String × String) → String → String → String
first_answer [] last text = last
first_answer ((t, a) ∷ cs) last text = if str_eq text t then a else first_answer cs last text

abbrev pub mime_types : List (String × String)
mime_types =
    (".m3u8", "application/vnd.apple.mpegurl")
    ∷ (".m4s", "video/iso.segment")
    ∷ (".ts", "video/mp2t")
    ∷ (".flv", "flv-application/octet-stream")
    ∷ (".bin", "flv-application/octet-stream")
    ∷ (".dat", "flv-application/octet-stream")
    ∷ (".json", "application/json")
    ∷ (".txt", "text/plain")
    ∷ (".htm", "text/html")
    ∷ (".html", "text/html")
    ∷ (".css", "text/css")
    ∷ (".js", "text/javascript")
    ∷ (".gif", "image/gif")
    ∷ (".jpeg", "image/jpeg")
    ∷ (".png", "image/png")
    ∷ (".ico", "image/x-icon")
    ∷ (".svg", "image/svg+xml")
    ∷ (".p8", "application/pkcs8")
    ∷ (".key", "application/pkcs8")
    ∷ (".p10", "application/pkcs10")
    ∷ (".csr", "application/pkcs10")
    ∷ (".cer", "application/pkix-cert")
    ∷ (".crl", "application/pkix-crl")
    ∷ (".p7c", "application/pkcs7-mime")
    ∷ (".p8", "application/pkcs8")
    ∷ (".crt", "application/x-x509-ca-cert")
    ∷ (".der", "application/x-x509-ca-cert")
    ∷ (".crl", "application/application/x-pkcs7-crl")
    ∷ (".pem", "application/x-pem-file")
    ∷ (".p12", "application/x-pkcs12")
    ∷ (".pfx", "application/x-pkcs12")
    ∷ (".p7b", "application/x-pkcs7-certificates")
    ∷ (".spc", "application/x-pkcs7-certificates")
    ∷ (".p7r", "application/x-pkcs7-certreqresp")
    ∷ (".aac", "audio/aac")
    ∷ (".abw", "application/x-abiword")
    ∷ (".arc", "application/x-freearc")
    ∷ (".avif", "image/avif")
    ∷ (".avi", "video/x-msvideo")
    ∷ (".azw", "application/vnd.amazon.ebook")
    ∷ (".bin", "application/octet-stream")
    ∷ (".bmp", "image/bmp")
    ∷ (".bz", "application/x-bzip")
    ∷ (".bz2", "application/x-bzip2")
    ∷ (".cda", "application/x-cdf")
    ∷ (".csh", "application/x-csh")
    ∷ (".css", "text/css")
    ∷ (".csv", "text/csv")
    ∷ (".doc", "application/msword")
    ∷ (".docx", "application/vnd.openxmlformats-officedocument.wordprocessingml.document")
    ∷ (".eot", "application/vnd.ms-fontobject")
    ∷ (".epub", "application/epub+zip")
    ∷ (".gz", "application/gzip")
    ∷ (".gif", "image/gif")
    ∷ (".htm", "text/html")
    ∷ (".ico", "image/vnd.microsoft.icon")
    ∷ (".ics", "text/calendar")
    ∷ (".jar", "application/java-archive")
    ∷ (".jpeg", "image/jpeg")
    ∷ (".js", "text/javascript")
    ∷ (".json", "application/json")
    ∷ (".jsonld", "application/ld+json")
    ∷ (".mid", "audio/midi")
    ∷ (".mjs", "text/javascript")
    ∷ (".mp3", "audio/mpeg")
    ∷ (".mp4", "video/mp4")
    ∷ (".mpeg", "video/mpeg")
    ∷ (".mpkg", "application/vnd.apple.installer+xml")
    ∷ (".odp", "application/vnd.oasis.opendocument.presentation")
    ∷ (".ods", "application/vnd.oasis.opendocument.spreadsheet")
    ∷ (".odt", "application/vnd.oasis.opendocument.text")
    ∷ (".oga", "audio/ogg")
    ∷ (".ogv", "video/ogg")
    ∷ (".ogx", "application/ogg")
    ∷ (".opus", "audio/opus")
    ∷ (".otf", "font/otf")
    ∷ (".png", "image/png")
    ∷ (".pdf", "application/pdf")
    ∷ (".php", "application/x-httpd-php")
    ∷ (".ppt", "application/vnd.ms-powerpoint")
    ∷ (".pptx", "application/vnd.openxmlformats-officedocument.presentationml.presentation")
    ∷ (".rar", "application/vnd.rar")
    ∷ (".rtf", "application/rtf")
    ∷ (".sh", "application/x-sh")
    ∷ (".svg", "image/svg+xml")
    ∷ (".tar", "application/x-tar")
    ∷ (".tif", "image/tiff")
    ∷ (".ts", "video/mp2t")
    ∷ (".ttf", "font/ttf")
    ∷ (".txt", "text/plain")
    ∷ (".vsd", "application/vnd.visio")
    ∷ (".wav", "audio/wav")
    ∷ (".weba", "audio/webm")
    ∷ (".webm", "video/webm")
    ∷ (".webp", "image/webp")
    ∷ (".woff", "font/woff")
    ∷ (".woff2", "font/woff2")
    ∷ (".xhtml", "application/xhtml+xml")
    ∷ (".xls", "application/vnd.ms-excel")
    ∷ (".xlsx", "application/vnd.openxmlformats-officedocument.spreadsheetml.sheet")
    ∷ (".xml", "application/xml")
    ∷ (".xul", "application/vnd.mozilla.xul+xml")
    ∷ (".zip", "application/zip")
    ∷ (".3gp", "video/3gpp")
    ∷ (".3g2", "video/3gpp2")
    ∷ (".7z", "application/x-7z-compressed")
    ∷ (".yaml", "text/vnd.yaml")
    ∷ []

unfoldable pub extension_to_mime_type : String → String
unfolding first_answer
extension_to_mime_type = first_answer mime_types ""
