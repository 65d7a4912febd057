-- ===== src/Language/Lexicon.antt =====
-- The tables of DeterministicIndicRuleProcessor in civicbrain/domain/nlp/processor.py.
use civicbrain_v.Base.{ℕ, List, [], ◌∷◌}
use civicbrain_v.Text.{Text, codes}

abbrev pub pothole_terms : List Text
pothole_terms =
    codes "pothole"
    ∷ codes "potholes"
    ∷ codes "crater"
    ∷ codes "craters"
    ∷ codes "asphalt damage"
    ∷ codes "khadda"
    ∷ codes "gaddha"
    ∷ codes "gadde"
    ∷ codes "khadde"
    ∷ codes "gundi"
    ∷ codes "kuzhi"
    ∷ codes "road damage"
    ∷ codes "road broken"
    ∷ codes "rough road"
    ∷ codes "bad road"
    ∷ codes "broken road"
    ∷ codes "खड्डा"
    ∷ codes "गड्ढा"
    ∷ codes "खड्डे"
    ∷ codes "गड्ढे"
    ∷ codes "ಗುಂಡಿ"
    ∷ codes "ರಸ್ತೆ ಗುಂಡಿ"
    ∷ codes "ಕುழி"
    ∷ []

abbrev pub garbage_terms : List Text
garbage_terms =
    codes "garbage"
    ∷ codes "trash"
    ∷ codes "waste"
    ∷ codes "dump"
    ∷ codes "dumping"
    ∷ codes "litter"
    ∷ codes "rubbish"
    ∷ codes "debris"
    ∷ codes "dustbin"
    ∷ codes "kachra"
    ∷ codes "kooda"
    ∷ codes "kasa"
    ∷ codes "kuppa"
    ∷ codes "kachada"
    ∷ codes "solid waste"
    ∷ codes "plastic waste"
    ∷ codes "कचरा"
    ∷ codes "कूड़ा"
    ∷ codes "ಕಸ"
    ∷ codes "ತಿಪ್ಪೆ"
    ∷ codes "குப்பை"
    ∷ []

abbrev pub drainage_terms : List Text
drainage_terms =
    codes "drain"
    ∷ codes "drainage"
    ∷ codes "sewage"
    ∷ codes "sewer"
    ∷ codes "gutter"
    ∷ codes "overflow"
    ∷ codes "waterlogging"
    ∷ codes "water logged"
    ∷ codes "nala"
    ∷ codes "mori"
    ∷ codes "kaalave"
    ∷ codes "kaluve"
    ∷ codes "manhole"
    ∷ codes "clogged drain"
    ∷ codes "नाली"
    ∷ codes "सीवर"
    ∷ codes "नाल"
    ∷ codes "ಚರಂಡಿ"
    ∷ codes "ಕಾಲುವೆ"
    ∷ codes "சாக்கடை"
    ∷ codes "வடிகால்"
    ∷ []

abbrev pub streetlight_terms : List Text
streetlight_terms =
    codes "streetlight"
    ∷ codes "street light"
    ∷ codes "streetlamp"
    ∷ codes "lamp"
    ∷ codes "pole"
    ∷ codes "dark"
    ∷ codes "darkness"
    ∷ codes "bulb"
    ∷ codes "bijli"
    ∷ codes "kambha"
    ∷ codes "current"
    ∷ codes "batti"
    ∷ codes "pole broken"
    ∷ codes "no light"
    ∷ codes "light illa"
    ∷ codes "स्ट्रीट लाइट"
    ∷ codes "बत्ती"
    ∷ codes "बिजली"
    ∷ codes "ಬೀದಿ ದೀಪ"
    ∷ codes "ಕಂಬ"
    ∷ codes "தெருவிளக்கு"
    ∷ []

abbrev pub water_supply_terms : List Text
water_supply_terms =
    codes "water supply"
    ∷ codes "drinking water"
    ∷ codes "pipeline"
    ∷ codes "pipe leak"
    ∷ codes "water pipe"
    ∷ codes "no water"
    ∷ codes "peene ka pani"
    ∷ codes "kudiya neeru"
    ∷ codes "tanni"
    ∷ codes "jal"
    ∷ codes "leaking pipe"
    ∷ codes "पानी"
    ∷ codes "जल"
    ∷ codes "ಕುಡಿಯುವ ನೀರು"
    ∷ codes "ನೀರು"
    ∷ codes "குடிநீர்"
    ∷ codes "தண்ணீர்"
    ∷ []

-- `CATEGORY_LEXICON`, in the order of the source.
unfoldable pub category_lexicon : List (Text × List Text)
category_lexicon =
    (codes "POTHOLE", pothole_terms)
    ∷ (codes "GARBAGE", garbage_terms)
    ∷ (codes "DRAINAGE", drainage_terms)
    ∷ (codes "STREETLIGHT", streetlight_terms)
    ∷ (codes "WATER_SUPPLY", water_supply_terms)
    ∷ []

-- `PHYSICAL_SEVERITY_KEYWORDS`, in the order (5, 4, 3, 2, 1) in which it is searched.
unfoldable pub physical_severity_keywords : List (ℕ × List Text)
physical_severity_keywords =
    (
      5,
      codes "massive crater"
          ∷ codes "cave-in"
          ∷ codes "collapsed road"
          ∷ codes "submerged"
          ∷ codes "high voltage"
          ∷ codes "life threatening"
          ∷ codes "huge crater"
          ∷ codes "deep pit"
          ∷ [],
    )
    ∷ (
      4,
      codes "deep"
          ∷ codes "deep pothole"
          ∷ codes "burst main"
          ∷ codes "flooding"
          ∷ codes "knee deep"
          ∷ codes "waist deep"
          ∷ codes "broken main"
          ∷ codes "major leak"
          ∷ [],
    )
    ∷ (
      3,
      codes "open manhole"
          ∷ codes "large"
          ∷ codes "overflowing"
          ∷ codes "sparking"
          ∷ codes "medium size"
          ∷ codes "uncovered"
          ∷ [],
    )
    ∷ (
      2,
      codes "medium"
          ∷ codes "dim"
          ∷ codes "pile"
          ∷ codes "unclean"
          ∷ codes "slow leak"
          ∷ codes "small crack"
          ∷ [],
    )
    ∷ (1, codes "small" ∷ codes "minor" ∷ codes "flickering" ∷ codes "litter" ∷ codes "slight" ∷ [])
    ∷ []

-- `EMOTION_DISTRESS_TERMS`
unfoldable pub emotion_distress_terms : List Text
emotion_distress_terms =
    codes "urgent"
    ∷ codes "urgently"
    ∷ codes "emergency"
    ∷ codes "immediate"
    ∷ codes "immediately"
    ∷ codes "danger"
    ∷ codes "dangerous"
    ∷ codes "accident"
    ∷ codes "hospital"
    ∷ codes "dying"
    ∷ codes "threat"
    ∷ codes "disaster"
    ∷ codes "shame"
    ∷ codes "shameful"
    ∷ codes "ridiculous"
    ∷ codes "worst"
    ∷ codes "pathetc"
    ∷ codes "pathetic"
    ∷ codes "useless"
    ∷ codes "careless"
    ∷ codes "negligent"
    ∷ codes "help"
    ∷ codes "please help"
    ∷ codes "jaldi"
    ∷ codes "turant"
    ∷ codes "sheeghra"
    ∷ codes "beku"
    ∷ codes "sikiram"
    ∷ codes "aabathu"
    ∷ []

-- `hinglish_markers`
unfoldable pub hinglish_markers : List Text
hinglish_markers =
    codes " hai"
    ∷ codes " ko"
    ∷ codes " mein"
    ∷ codes " nahi"
    ∷ codes " rasta"
    ∷ codes " khadda"
    ∷ codes " kachra"
    ∷ codes " maadi"
    ∷ codes " illa"
    ∷ codes " bekagide"
    ∷ []
