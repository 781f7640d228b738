-- ===== src/I18n/Provider.antt =====
-- `I18nProvider` of web/src/i18n.tsx: the language that is shown, and the one that the browser keeps.
use infra_orch_studio.Common.{
  ◌||◌, Option, none, some, String, str_eq, if◌then◌else◌, ◌≡◌, ◌≢◌, refl, arith, eq_iff,
}
use infra_orch_studio.I18n.{CopyShape}
use infra_orch_studio.I18n.English.{english}
use infra_orch_studio.I18n.Korean.{korean}

pub data Locale : Type 0 where
  en ko : Locale

-- `COPY[locale]`
abbrev pub copy_of : Locale → CopyShape
copy_of en = english
copy_of ko = korean

abbrev pub code_of : Locale → String
code_of en = "en"
code_of ko = "ko"

-- The state of the provider, and the entry of `STORAGE_KEY` in the browser's storage.
pub record Provider : Type 0 where
  pub locale : Locale
  pub stored : Option String

abbrev pub locale_or : Locale → Option String → Locale
locale_or locale none = locale
locale_or locale (some stored) =
    if str_eq stored "en" || str_eq stored "ko"
    then if str_eq stored "en" then en else ko
    else locale

-- The effect behind the first rendering.
unfoldable pub read_stored : Provider → Provider
read_stored p = record p { locale = locale_or p.locale p.stored }

-- A page that is opened anew starts in English.
unfoldable pub mount : Option String → Provider
mount stored = record { locale = en; stored = stored }

unfoldable pub set_locale : Locale → Provider → Provider
set_locale next p = record { locale = next; stored = some (code_of next) }

-- A language that was chosen is shown again when the page is opened anew.
pub read_stored-set_locale :
    (next : Locale) (p : Provider) → (read_stored (mount (set_locale next p).stored)).locale ≡ next
unfolding read_stored mount set_locale
read_stored-set_locale en p = refl
read_stored-set_locale ko p = refl

-- Without an entry, or with one that names no language, the page that is opened shows English.
pub read_stored-other :
    (stored : String)
    → stored ≢ "en"
    → stored ≢ "ko"
    → ((read_stored (mount (some stored))).locale ≡ en) × ((read_stored (mount none)).locale ≡ en)
unfolding read_stored mount
read_stored-other stored e k = (ground (arith, eq_iff stored "en", eq_iff stored "ko"), refl)
