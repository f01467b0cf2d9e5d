-- ===== src/Help.antt =====
-- The two texts of help: printHelp of app/cli/main.cpp, and the command `help` of app/cli/interactive/
-- commands.cpp. A text is the list of its code points.
use octet.Prelude.{◌++◌, Bytes, codes}

-- By the name under which the program was called.
unfoldable pub help_page : Bytes → Bytes
help_page executable =
    codes "Использование:\n"
    ++ codes "  "
    ++ executable
    ++ codes " [АРГУМЕНТЫ]\n\n"
    ++ codes "Описание:\n"
    ++ codes "  Хранилище UTF-8 строк с механизмом WAL, снапшотами и UUID-идентификаторами.\n\n"
    ++ codes "Путь к хранилищу (--storage):\n"
    ++ codes "  Параметр --storage указывает директорию, где будут храниться данные,\n"
    ++ codes "  а именно журналы и снапшоты. Эта директория должна быть доступной для записи.\n"
    ++ codes "  Пример: --storage=~/octet/mystorage\n\n"
    ++ codes "Общие опции:\n"
    ++ codes "  --snapshot-operations=ЧИСЛО    Порог операций до снапшота (по умолчанию: 100)\n"
    ++ codes "  --snapshot-minutes=ЧИСЛО       Интервал снапшотов в минутах (по умолчанию: 10)\n"
    ++ codes "  --disable-warnings             Отключить вывод текстовых сообщений-предупреждений\n"
    ++ codes "  --help                         Показать справку\n\n"
    ++ codes "Режимы работы:\n"
    ++ codes
        "  По умолчанию octet выполняет однократную команду, если не указаны --interactive или --server.\n\n"
    ++ codes "=== Однократное выполнение команды ===\n"
    ++ codes "  Запуск: "
    ++ executable
    ++ codes " --storage=ПУТЬ [ОПЦИИ] <КОМАНДА> [АРГУМЕНТЫ]\n"
    ++ codes "  Команда и аргументы указываются в командной строке.\n"
    ++ codes "  Доступные опции:\n"
    ++ codes "    --disable-warnings           Отключить вывод текстовых сообщений-предупреждений\n"
    ++ codes "  Доступные команды:\n"
    ++ codes "    insert \"<СТРОКА>\"            Вставить строку и получить ее UUID\n"
    ++ codes "    get <UUID>                   Получить строку по UUID\n"
    ++ codes "    update <UUID> \"<СТРОКА>\"     Обновить строку по UUID\n"
    ++ codes "    remove <UUID>                Удалить строку по UUID\n\n"
    ++ codes "  Для корректной передачи <СТРОКА> рекомендуется заключать её в кавычки\n"
    ++ codes "  и при необходимости экранировать специальные символы.\n\n"
    ++ codes "=== Интерактивный режим ===\n"
    ++ codes "  Запуск: "
    ++ executable
    ++ codes " --storage=ПУТЬ --interactive [ОПЦИИ]\n"
    ++ codes "  В интерактивном режиме команды вводятся построчно.\n"
    ++ codes "  Доступные опции:\n"
    ++ codes "    --disable-warnings           Отключить вывод текстовых сообщений-предупреждений\n"
    ++ codes "    --snapshot-operations=ЧИСЛО  Порог операций до снапшота (по умолчанию: 100)\n"
    ++ codes "    --snapshot-minutes=ЧИСЛО     Интервал снапшотов в минутах (по умолчанию: 10)\n"
    ++ codes "  Доступные команды:\n"
    ++ codes "    insert <СТРОКА>              Вставить строку и получить ее UUID\n"
    ++ codes "    get <UUID>                   Получить строку по UUID\n"
    ++ codes "    update <UUID> <СТРОКА>       Обновить строку по UUID\n"
    ++ codes "    remove <UUID>                Удалить строку по UUID\n"
    ++ codes "    snapshot                     Принудительно создать снапшот\n"
    ++ codes "    set-snapshot-operations <N>  Изменить порог операций для снапшота\n"
    ++ codes "    set-snapshot-minutes <N>     Изменить интервал снапшота в минутах\n"
    ++ codes "    exit                         Выход из интерактивного режима\n"
    ++ codes "    help                         Показать справку по доступным командам\n\n"
    ++ codes "  В этом режиме <СТРОКА> интерпретируется как есть — она принимается целиком,\n"
    ++ codes "  без разбиения на слова или анализa содержимого. Перед обработкой из строки\n"
    ++ codes "  удаляются только незначащие пробелы в начале и в конце.\n\n"
    ++ codes "=== Серверный режим ===\n"
    ++ codes "  Запуск: "
    ++ executable
    ++ codes " --storage=ПУТЬ --server [ОПЦИИ]\n"
    ++ codes "  Доступные опции:\n"
    ++ codes "    --disable-warnings           Отключить вывод текстовых сообщений-предупреждений\n"
    ++ codes "    --snapshot-operations=ЧИСЛО  Порог операций до снапшота (по умолчанию: 100)\n"
    ++ codes "    --snapshot-minutes=ЧИСЛО     Интервал снапшотов в минутах (по умолчанию: 10)\n"
    ++ codes
        "    --socket=ПУТЬ                Путь к Unix-сокету (по умолчанию: /tmp/octet.sock).\n"
    ++ codes "                                 Сокет не должен существовать.\n\n"
    ++ codes "  Неподдерживаемые опции для выбранного режима будут проигнорированы.\n\n"

unfoldable pub help_message : Bytes
help_message =
    codes "Доступные команды:\n"
    ++ codes "  insert <СТРОКА>              Вставить строку и получить ее UUID\n"
    ++ codes "  get <UUID>                   Получить строку по UUID\n"
    ++ codes "  update <UUID> <СТРОКА>       Обновить строку по UUID\n"
    ++ codes "  remove <UUID>                Удалить строку по UUID\n"
    ++ codes "  snapshot                     Принудительно создать снапшот\n"
    ++ codes "  set-snapshot-operations <N>  Изменить порог операций для снапшота\n"
    ++ codes "  set-snapshot-minutes <N>     Изменить интервал снапшота в минутах\n"
    ++ codes "  exit                         Выход из интерактивного режима\n"
    ++ codes "  help                         Показать справку по доступным командам\n\n"
    ++ codes "  В этом режиме <СТРОКА> интерпретируется как есть — она принимается целиком,\n"
    ++ codes "  без разбиения на слова или анализa содержимого. Перед обработкой из строки\n"
    ++ codes "  удаляются только незначащие пробелы в начале и в конце.\n"

-- `runInteractiveMode` before its loop, and when the user leaves it.
unfoldable pub greeting : Bytes
greeting =
    codes "Octet - интерактивный режим\n"
    ++ codes "Введите команду или 'help' для получения справки, 'exit' для выхода"

unfoldable pub farewell : Bytes
farewell = codes "Выход из интерактивного режима"
